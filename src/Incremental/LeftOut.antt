-- ===== src/Incremental/LeftOut.antt =====
-- Which files a plan leaves out, with the content that the tapes hold.
use fossilsafe_t.Prelude.{
  String, ◌≡◌, refl, sym, ap, subst, ◌≢◌, ◌↔◌, ◌⊎◌, some, List, [], ◌∷◌, arith, nat_eq, string_eq,
}
use fossilsafe_t.Prelude.Dict.{lookup}
use mathlib.Core.List.{Memᴰ}
use fossilsafe_t.Incremental.{
  File, Known, Fate, backs_up, skips, fate, catalog_tapes, reason_skipped_unchanged,
  compute_incremental_plan,
}
use fossilsafe_t.Incremental.Partition.{left_out, plan-partition}
use fossilsafe_t.Incremental.Reasons.{fate-iff-unchanged}

left_out-skips :
    (k : Known) (g : File) (fs : List File) (reason : String)
    → fate k g ≡ skips reason
    → left_out k (g ∷ fs) ≡ (g, reason) ∷ left_out k fs
unfolding left_out
left_out-skips k g fs reason e = rw (left_out, e) refl

left_out-backs_up :
    (k : Known) (g : File) (fs : List File) (reason : String)
    → fate k g ≡ backs_up reason
    → left_out k (g ∷ fs) ≡ left_out k fs
unfolding left_out
left_out-backs_up k g fs reason e = rw (left_out, e) refl

-- An entry of the list is a file that was given, with its reason.
member-given :
    (k : Known) (f : File) (reason : String) (fs : List File)
    → Memᴰ (f, reason) (left_out k fs)
    → Memᴰ f fs × (fate k f ≡ skips reason)
unfolding left_out
member-given k f reason [] m = elim m [ ]
member-given k f reason (g ∷ fs) m = split (fate k g) refl (member-given k f reason fs)
  where
    first :
        (r : String)
        → fate k g ≡ skips r
        → (Memᴰ (f, reason) (left_out k fs) → Memᴰ f fs × (fate k f ≡ skips reason))
        → Memᴰ (f, reason) ((g, r) ∷ left_out k fs)
        → Memᴰ f (g ∷ fs) × (fate k f ≡ skips reason)
    first r e rest (Memᴰ.head same) =
        let same_file : f ≡ g = ap (λ q. q.0) same in
        let same_reason : reason ≡ r = ap (λ q. q.1) same in
        (Memᴰ.head same_file, cc (e, same_file, same_reason))
    first r e rest (Memᴰ.tail n) = let (there, fated) = rest n in (Memᴰ.tail there, fated)

    split :
        (w : Fate)
        → fate k g ≡ w
        → (Memᴰ (f, reason) (left_out k fs) → Memᴰ f fs × (fate k f ≡ skips reason))
        → Memᴰ f (g ∷ fs) × (fate k f ≡ skips reason)
    split (skips r) e rest =
        first r e rest (subst (λ l. Memᴰ (f, reason) l) (left_out-skips k g fs r e) m)
    split (backs_up r) e rest =
        let (there, fated) =
          rest (subst (λ l. Memᴰ (f, reason) l) (left_out-backs_up k g fs r e) m) in
        (Memᴰ.tail there, fated)

given-member :
    (k : Known) (f : File) (reason : String) (fs : List File)
    → fate k f ≡ skips reason
    → Memᴰ f fs
    → Memᴰ (f, reason) (left_out k fs)
given-member k f reason [] e m = elim m [ ]
given-member k f reason (g ∷ fs) e (Memᴰ.head same) =
    subst (λ l. Memᴰ (f, reason) l)
      (sym (left_out-skips k g fs reason (subst (λ (h : File). fate k h ≡ skips reason) same e)))
      (Memᴰ.head (ap (λ (h : File). (h, reason)) same))
given-member k f reason (g ∷ fs) e (Memᴰ.tail m) =
    split (fate k g) refl (given-member k f reason fs e m)
  where
    split :
        (w : Fate)
        → fate k g ≡ w
        → Memᴰ (f, reason) (left_out k fs)
        → Memᴰ (f, reason) (left_out k (g ∷ fs))
    split (skips r) h n =
        subst (λ l. Memᴰ (f, reason) l) (sym (left_out-skips k g fs r h)) (Memᴰ.tail n)
    split (backs_up r) h n = subst (λ l. Memᴰ (f, reason) l) (sym (left_out-backs_up k g fs r h)) n

-- There is one reason to leave a file out.
skips-reason :
    (k : Known) (f : File) (reason : String)
    → fate k f ≡ skips reason
    → reason ≡ reason_skipped_unchanged
unfolding fate
skips-reason k f reason e = ground arith

-- A plan leaves a file out, for any reason, just where the file was given, its checksum is known, the
-- last snapshot has the same checksum at this very path, and the catalog knows no tape with this
-- content or one of its tapes is available. So a file with another path than in the last snapshot is
-- backed up although an available tape holds its content.
pub skipped-iff-unchanged :
    (k : Known) (f : File) (files : List File)
    → ((reason : String) × Memᴰ (f, reason) (compute_incremental_plan k files).0.skipped) ↔ (
        Memᴰ f files
        × (f.checksum ≢ "")
        × (lookup f.path k.last_snapshot ≡ some f.checksum)
        × ((catalog_tapes k f.checksum ≡ [])
            ⊎ ((t : String) × Memᴰ t (catalog_tapes k f.checksum) × Memᴰ t k.available_tapes)))
skipped-iff-unchanged k f files =
    let lists = (plan-partition k files).1 in
    (
      λ (reason, m).
          let (there, fated) =
            member-given k f reason files (subst (λ l. Memᴰ (f, reason) l) lists m) in
          let (known, same, tape) =
            (fate-iff-unchanged k f).0 (cc (fated, skips-reason k f reason fated)) in
          (there, known, same, tape),
      λ (there, known, same, tape). (
        reason_skipped_unchanged,
        subst (λ l. Memᴰ (f, reason_skipped_unchanged) l) (sym lists)
            (given-member k f reason_skipped_unchanged files
              ((fate-iff-unchanged k f).1 (known, same, tape)) there),
      ),
    )
