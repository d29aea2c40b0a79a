-- ===== src/Shared/Reservations/Conflicts.antt =====
-- What `findConflict` of src/shared/reservations.ts finds.
use pi_mesh.Prelude.{
  ℕ, String, Bool, true, false, List, [], ◌∷◌, Option, none, some, ◌≡◌, ◌≢◌, ◌⊎◌, eq_iff, codes,
  inl, inr, arith, ◌==◌, Bool-cases, Option-cases, sym, subst, ◌∙◌,
}
use pi_mesh.Dict.{Dict}
use pi_mesh.Protocol.Frame.{FileReservation}
use pi_mesh.Shared.Reservations.{
  path_matches_reservation, is_reservation_expired, blocks, first_blocking, find_conflict,
}

-- A reservation is in a list, or in the table under an alias.
abbrev pub Among : FileReservation → List FileReservation → Type 0
Among r [] = ⊥
Among r (s ∷ rs) = (r ≡ s) ⊎ Among r rs

abbrev pub Holds : String → FileReservation → Dict (List FileReservation) → Type 0
Holds alias r [] = ⊥
Holds alias r ((k, rs) ∷ m) = ((alias ≡ k) × Among r rs) ⊎ Holds alias r m

module _ (windows : Option (List ℕ → List ℕ)) (file_path : String) (ttl_ms now : ℕ) where
  abbrev in_the_way : FileReservation → Bool
  in_the_way r = blocks windows file_path ttl_ms now r

  first_blocking-some :
      (rs : List FileReservation) (r : FileReservation)
      → first_blocking windows file_path ttl_ms now rs ≡ some r
      → Among r rs × (in_the_way r ≡ true)
  unfolding first_blocking
  first_blocking-some [] r h = cc
  first_blocking-some (s ∷ rs) r h = elim (Bool-cases (in_the_way s)) [
    | inl yes_ ↦
        let same : s ≡ r = ground arith in
        (inl (sym same), subst (λ t. in_the_way t ≡ true) same yes_)
    | inr no_ ↦ let (among, way) = first_blocking-some rs r (ground arith) in (inr among, way)
  ]

  first_blocking-none :
      (rs : List FileReservation) (r : FileReservation)
      → first_blocking windows file_path ttl_ms now rs ≡ none
      → Among r rs
      → in_the_way r ≡ false
  unfolding first_blocking
  first_blocking-none [] r h m = absurd m
  first_blocking-none (s ∷ rs) r h (inl e) =
      subst (λ t. in_the_way t ≡ false) (sym e) (ground arith)
  first_blocking-none (s ∷ rs) r h (inr m) = first_blocking-none rs r (ground arith) m

  -- What the reservation of another peer must be to stand in the way of a file.
  abbrev pub Stands : String → String → FileReservation → Type 0
  Stands self_alias alias r =
      (alias ≢ self_alias)
      × (is_reservation_expired r ttl_ms now ≡ false)
      × (path_matches_reservation windows (codes file_path) (codes r.pattern) ≡ true)

  stands :
      (self_alias alias : String) (r : FileReservation)
      → (alias == self_alias) ≡ false
      → in_the_way r ≡ true
      → Stands self_alias alias r
  stands self_alias alias r other way =
      (λ e. ground (arith, eq_iff alias self_alias), ground arith, ground arith)

  find_conflict-some :
      (self_alias : String) (m : Dict (List FileReservation)) (alias : String) (r : FileReservation)
      → find_conflict windows file_path ttl_ms now self_alias m ≡ some (alias, r)
      → Holds alias r m × Stands self_alias alias r
  unfolding find_conflict
  find_conflict-some self_alias [] alias r h = cc
  find_conflict-some self_alias ((k, rs) ∷ m) alias r h = elim (Bool-cases (k == self_alias)) [
    | inl own ↦
        let (held, st) = find_conflict-some self_alias m alias r (ground arith) in (inr held, st)
    | inr other ↦ elim (Option-cases (first_blocking windows file_path ttl_ms now rs)) [
      | inl e ↦
          let (held, st) = find_conflict-some self_alias m alias r (ground arith) in (inr held, st)
      | inr (s, e) ↦
          let same : (k ≡ alias) × (s ≡ r) = (ground arith, ground arith) in
          let (among, way) = first_blocking-some rs s e in
          (
            inl (sym same.0, subst (λ t. Among t rs) same.1 among),
            stands self_alias alias r (subst (λ j. (j == self_alias) ≡ false) same.0 other)
                (subst (λ t. in_the_way t ≡ true) same.1 way),
          )
    ]
  ]

  not_both :
      {self_alias alias : String} (r : FileReservation)
      → in_the_way r ≡ false
      → ¬ Stands self_alias alias r
  not_both r h (other, fresh, covers) = ground arith

  find_conflict-none :
      (self_alias : String) (m : Dict (List FileReservation)) (alias : String) (r : FileReservation)
      → find_conflict windows file_path ttl_ms now self_alias m ≡ none
      → Holds alias r m
      → ¬ Stands self_alias alias r
  unfolding find_conflict
  find_conflict-none self_alias [] alias r h held st = absurd held
  find_conflict-none self_alias ((k, rs) ∷ m) alias r h (inl (e, among)) st =
      elim (Bool-cases (k == self_alias)) [
        | inl own ↦ st.0 (e ∙ (eq_iff k self_alias).0 own)
        | inr other ↦
            let nothing : first_blocking windows file_path ttl_ms now rs ≡ none = ground arith in
            let clear = first_blocking-none rs r nothing among in not_both r clear st
      ]
  find_conflict-none self_alias ((k, rs) ∷ m) alias r h (inr held) st =
      find_conflict-none self_alias m alias r (ground arith) held st

  -- The conflict that is found is a reservation that another peer holds, that has not expired and
  -- that covers the file; and if none is found, no peer but the caller holds such a one.
  pub find_conflict_lem :
      (self_alias : String) (m : Dict (List FileReservation))
      → ((alias : String) (r : FileReservation)
          → find_conflict windows file_path ttl_ms now self_alias m ≡ some (alias, r)
          → Holds alias r m × Stands self_alias alias r)
        × (find_conflict windows file_path ttl_ms now self_alias m ≡ none
            → (alias : String) (r : FileReservation) → Holds alias r m
            → ¬ Stands self_alias alias r)
  find_conflict_lem self_alias m = (
    find_conflict-some self_alias m,
    λ none_found alias r. find_conflict-none self_alias m alias r none_found,
  )
