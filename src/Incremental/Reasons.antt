-- ===== src/Incremental/Reasons.antt =====
-- The tests of `compute_incremental_plan` for one file, said of the snapshot and the tapes.
use fossilsafe_t.Prelude.{
  String, ◌≡◌, refl, subst, ◌≢◌, ◌↔◌, ◌⊎◌, inl, inr, Bool, true, ◌&&◌, ◌||◌, Option, none, some,
  List, [], ◌∷◌, arith, Bool-cases, ◌==◌, nat_eq, string_eq, str_iff, is_text, text_truth,
}
use fossilsafe_t.Prelude.Dict.{lookup}
use mathlib.Core.List.{Memᴰ}
use fossilsafe_t.Incremental.{
  File, Known, skips, fate, among, meets, catalog_tapes, is_empty, reason_skipped_unchanged,
}

among-member : (x : String) (xs : List String) → among x xs ≡ true → Memᴰ x xs
unfolding among
among-member x [] h = ground arith
among-member x (y ∷ ys) h = elim (Bool-cases (x == y)) [
  | inl e ↦ Memᴰ.head ((str_iff x y).0 e)
  | inr e ↦ Memᴰ.tail (among-member x ys (ground (arith, e, h)))
]

member-among : (x : String) (xs : List String) → Memᴰ x xs → among x xs ≡ true
unfolding among
member-among x [] m = elim m [ ]
member-among x (y ∷ ys) (Memᴰ.head e) = ground (arith, (str_iff x y).1 e)
member-among x (y ∷ ys) (Memᴰ.tail m) = ground (arith, member-among x ys m)

meets-member : (xs ys : List String) → meets xs ys ≡ true → (t : String) × Memᴰ t xs × Memᴰ t ys
unfolding meets
meets-member [] ys h = ground arith
meets-member (x ∷ xs) ys h = elim (Bool-cases (among x ys)) [
  | inl e ↦ (x, Memᴰ.head refl, among-member x ys e)
  | inr e ↦
      let (t, here, there) = meets-member xs ys (ground (arith, e, h)) in (t, Memᴰ.tail here, there)
]

member-meets : (t : String) (xs ys : List String) → Memᴰ t xs → Memᴰ t ys → meets xs ys ≡ true
unfolding meets
member-meets t [] ys here m = elim here [ ]
member-meets t (x ∷ xs) ys (Memᴰ.head e) m =
    ground (arith, member-among x ys (subst (λ z. Memᴰ z ys) e m))
member-meets t (x ∷ xs) ys (Memᴰ.tail here) m = ground (arith, member-meets t xs ys here m)

-- The test that `fate` makes, as one Boolean.
skipped : Known → File → Bool
skipped k f =
    text_truth f.checksum
    && (is_text (lookup f.path k.last_snapshot) f.checksum
        && (is_empty (catalog_tapes k f.checksum)
            || meets (catalog_tapes k f.checksum) k.available_tapes))

fate-skipped :
    (k : Known) (f : File) → (fate k f ≡ skips reason_skipped_unchanged) ↔ (skipped k f ≡ true)
unfolding fate skipped
fate-skipped k f = ground arith

is_text-some : (o : Option String) (s : String) → (is_text o s ≡ true) ↔ (o ≡ some s)
is_text-some none s = ground arith
is_text-some (some t) s = ground (arith, str_iff t s)

is_empty_iff : (xs : List String) → (is_empty xs ≡ true) ↔ (xs ≡ [])
is_empty_iff [] = (λ _. refl, λ _. refl)
is_empty_iff (x ∷ xs) = ground arith

-- The fate of a file is to be skipped as unchanged just where its checksum is known and the last
-- snapshot has the same one at this path, and the catalog knows no tape with this content or one of
-- its tapes is available.
pub fate-iff-unchanged :
    (k : Known) (f : File)
    → (fate k f ≡ skips reason_skipped_unchanged) ↔ (
        (f.checksum ≢ "")
        × (lookup f.path k.last_snapshot ≡ some f.checksum)
        × ((catalog_tapes k f.checksum ≡ [])
            ⊎ ((t : String) × Memᴰ t (catalog_tapes k f.checksum) × Memᴰ t k.available_tapes)))
unfolding skipped
fate-iff-unchanged k f =
    let tapes = catalog_tapes k f.checksum in
    let same = is_text-some (lookup f.path k.last_snapshot) f.checksum in
    let text = str_iff f.checksum "" in
    (
      λ e.
          let h = (fate-skipped k f).0 e in
          (
            ground (arith, h, text),
            same.0 (ground (arith, h)),
            elim (Bool-cases (is_empty tapes)) [
              | inl empty ↦ inl ((is_empty_iff tapes).0 empty)
              | inr full ↦ inr (meets-member tapes k.available_tapes (ground (arith, h, full)))
            ],
          ),
      λ (known, snapshot, tape).
          let there : (is_empty tapes || meets tapes k.available_tapes) ≡ true = elim tape [
            | inl none_known ↦ ground (arith, (is_empty_iff tapes).1 none_known)
            | inr (t, here, ready) ↦
                ground (arith, member-meets t tapes k.available_tapes here ready)
          ] in
          (fate-skipped k f).1 (ground (arith, there, same.1 snapshot, known, text)),
    )
