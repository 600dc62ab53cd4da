-- ===== src/Restore/Attempts.antt =====
-- What the routine that restores the files of one tape has attempted.
use fossilsafe_t.Prelude.{
  ℕ, ◌+◌, String, ◌≡◌, refl, sym, ap, subst, ◌∙◌, ◌⊎◌, inl, inr, Bool, true, false, List, [], ◌∷◌,
  ◌++◌, if◌then◌else◌, nat_eq, string_eq,
}
use fossilsafe_t.Prelude.Dict.{Dict, lookup}
use fossilsafe_t.Restore.Plan.{File, or_empty}
use fossilsafe_t.Restore.Execute.{
  JobStatus, is_cancelled, FileEnd, restored, passed_over, copy_failed, refused, Surroundings,
  Engine, after_file, copy_files, after_prepare, unmounted, after_mount, with_world,
}

-- The files of a tape, and those of a plan in the order of its tapes, each with its tape.
abbrev pub entries : String → List File → List (String × File)
entries tape [] = []
entries tape (f ∷ fs) = (tape, f) ∷ entries tape fs

unfoldable pub plan_entries : Dict String (List File) → List String → List (String × File)
plan_entries files [] = []
plan_entries files (tape ∷ order) =
    entries tape (or_empty (lookup tape files)) ++ plan_entries files order

append_one {ℓ} :
    {A : Type ℓ} (xs : List A) (t : A) (ys : List A) → (xs ++ t ∷ []) ++ ys ≡ xs ++ (t ∷ ys)
append_one [] t ys = refl
append_one (x ∷ xs) t ys = ap (λ r. x ∷ r) (append_one xs t ys)

pub append_nil {ℓ} : {A : Type ℓ} (xs : List A) → xs ++ [] ≡ xs
append_nil [] = refl
append_nil (x ∷ xs) = ap (λ r. x ∷ r) (append_nil xs)

pub append_assoc {ℓ} : {A : Type ℓ} (xs ys zs : List A) → (xs ++ ys) ++ zs ≡ xs ++ (ys ++ zs)
append_assoc [] ys zs = refl
append_assoc (x ∷ xs) ys zs = ap (λ r. x ∷ r) (append_assoc xs ys zs)

-- What is asked of the surroundings: the row reads what was written last, an unmount does not write
-- it, and `attempts` are the calls of `copy_file` so far, with the tapes: a call adds itself, and
-- nothing else adds or takes one.
pub record Watched (s : Surroundings) : Type 0 where
  pub status_set : (x : JobStatus) (w : s.World) → s.status (s.set_status x w) ≡ x
  pub status_unmount : (w : s.World) → s.status (s.unmount_ltfs w) ≡ s.status w
  pub attempts : s.World → List (String × File)
  pub on_copy :
      (t : String) (f : File) (w : s.World)
      → attempts (s.copy_file t f w).1 ≡ attempts w ++ (t, f) ∷ []
  pub on_sleep : (n : ℕ) (w : s.World) → attempts (s.sleep n w) ≡ attempts w
  pub on_status : (x : JobStatus) (w : s.World) → attempts (s.set_status x w) ≡ attempts w
  pub on_current : (w : s.World) → attempts (s.current_tape w).1 ≡ attempts w
  pub on_load : (t : String) (w : s.World) → attempts (s.load_tape t w).1 ≡ attempts w
  pub on_mount : (t : String) (w : s.World) → attempts (s.mount_ltfs t w).1 ≡ attempts w
  pub on_prepare : (w : s.World) → attempts (s.prepare w).1 ≡ attempts w
  pub on_count : (n : ℕ) (w : s.World) → attempts (s.set_files_restored n w) ≡ attempts w
  pub on_unmount : (w : s.World) → attempts (s.unmount_ltfs w) ≡ attempts w

module _ (s : Surroundings) (watch : Watched s) where
  open watch use {attempts}

  -- A routine that returns has attempted the files beside those of before, or the job is cancelled.
  abbrev pub HasTried : List (String × File) → List (String × File) → Bool × Engine s → Type 0
  HasTried before more (true, e) =
      (is_cancelled (s.status e.world) ≡ true) ⊎ (attempts e.world ≡ before ++ more)
  HasTried before more (false, e) = Unit

  one_more :
      (before now more : List (String × File)) (x : String × File) (r : Bool × Engine s)
      → now ≡ before ++ x ∷ []
      → HasTried now more r
      → HasTried before (x ∷ more) r
  one_more before now more x (true, e) same (inl c) = inl c
  one_more before now more x (true, e) same (inr h) =
      inr (h ∙ ap (λ l. l ++ more) same ∙ append_one before x more)
  one_more before now more x (false, e) same h = tt

  after_file-HasTried :
      (n : ℕ) (tape : String) (f : File) (fs : List File) (next : ℕ → Engine s → Bool × Engine s)
      → ((m : ℕ) (g : Engine s) → HasTried (attempts g.world) (entries tape fs) (next m g))
      → (r : FileEnd × s.World) (e : Engine s) → attempts r.1 ≡ attempts e.world ++ (tape, f) ∷ []
      → HasTried (attempts e.world) (entries tape (f ∷ fs)) (after_file s n next r e)
  after_file-HasTried n tape f fs next h (restored, w) e same =
      let g = with_world s e (s.set_files_restored (n + 1) w) in
      one_more (attempts e.world) (attempts g.world) (entries tape fs) (tape, f) (next (n + 1) g)
        (watch.on_count (n + 1) w ∙ same) (h (n + 1) g)
  after_file-HasTried n tape f fs next h (passed_over, w) e same =
      let g = with_world s e w in
      one_more (attempts e.world) (attempts w) (entries tape fs) (tape, f) (next n g) same (h n g)
  after_file-HasTried n tape f fs next h (copy_failed, w) e same =
      let g = with_world s e w in
      one_more (attempts e.world) (attempts w) (entries tape fs) (tape, f) (next n g) same (h n g)
  after_file-HasTried n tape f fs next h (refused, w) e same = tt

  unless_cancelled :
      (b : Bool) (more : List (String × File)) (e : Engine s) (r : Bool × Engine s)
      → is_cancelled (s.status e.world) ≡ b
      → HasTried (attempts e.world) more r
      → HasTried (attempts e.world) more (if b then (true, e) else r)
  unless_cancelled true more e r c h = inl c
  unless_cancelled false more e r c h = h

  copy_files-HasTried :
      (n : ℕ) (tape : String) (fs : List File) (e : Engine s)
      → HasTried (attempts e.world) (entries tape fs) (copy_files s n tape fs e)
  unfolding copy_files
  copy_files-HasTried n tape [] e = inr (sym (append_nil (attempts e.world)))
  copy_files-HasTried n tape (f ∷ fs) e =
      unless_cancelled (is_cancelled (s.status e.world)) (entries tape (f ∷ fs)) e _ refl (
        after_file-HasTried n tape f fs (λ m g. copy_files s m tape fs g)
          (λ m g. copy_files-HasTried m tape fs g) (s.copy_file tape f e.world) e
          (watch.on_copy tape f e.world))

  unmounted-HasTried :
      (before more : List (String × File)) (r : Bool × Engine s)
      → HasTried before more r
      → HasTried before more (unmounted s r)
  unmounted-HasTried before more (true, e) (inl c) =
      inl (ap is_cancelled (watch.status_unmount e.world) ∙ c)
  unmounted-HasTried before more (true, e) (inr h) = inr (watch.on_unmount e.world ∙ h)
  unmounted-HasTried before more (false, e) h = tt

  after_prepare-HasTried :
      (before : List (String × File)) (tape : String) (fs : List File) (r : Bool × s.World)
      (e : Engine s)
      → attempts r.1 ≡ before
      → HasTried before (entries tape fs) (after_prepare s tape fs r e)
  after_prepare-HasTried before tape fs (false, w) e same = tt
  after_prepare-HasTried before tape fs (true, w) e same =
      subst (λ b. HasTried b (entries tape fs) (copy_files s 0 tape fs (with_world s e w))) same
        (copy_files-HasTried 0 tape fs (with_world s e w))

  pub after_mount-HasTried :
      (before : List (String × File)) (tape : String) (fs : List File) (r : Bool × s.World)
      (e : Engine s)
      → attempts r.1 ≡ before
      → HasTried before (entries tape fs) (after_mount s tape fs r e)
  after_mount-HasTried before tape fs (false, w) e same = tt
  after_mount-HasTried before tape fs (true, w) e same =
      unmounted-HasTried before (entries tape fs) _
        (after_prepare-HasTried before tape fs (s.prepare w) e (watch.on_prepare w ∙ same))
