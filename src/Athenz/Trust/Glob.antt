-- ===== src/Athenz/Trust/Glob.antt =====
-- The resource of an assertion as a pattern: what the regular expression built from it matches.
use k8s_athenz_istio_auth.Prelude.{
  ℕ, ◌≡◌, ◌≢◌, ◌↔◌, refl, true, false, List, [], ◌∷◌, ◌++◌, none, some, arith, ◌⊎◌, ◌==◌,
  Bool-cases, inl, inr, if◌then◌else◌,
}
use k8s_athenz_istio_auth.Prelude.Text.{Text, contains}
use k8s_athenz_istio_auth.Prelude.Regexp.{
  any_char, char, Piece, one, star, put_atom, put_star, put_char, lex, fits, match_pieces, closed,
  match_whole,
}
use k8s_athenz_istio_auth.Athenz.Trust.{replace_char, role_replacer}

-- The text fits the pattern: a star stands for any characters but a line feed, a question mark for
-- one of these, and any other character for itself.
pub data Fits : Text → Text → Type 0 where
  done : Fits [] []
  star_ends : {c : ℕ} {r s : Text} → c ≡ b'*' → Fits r s → Fits (c ∷ r) s
  star_goes_on :
      {c x : ℕ} {r s : Text} → c ≡ b'*' → x ≢ b'\n' → Fits (c ∷ r) s → Fits (c ∷ r) (x ∷ s)
  any_one : {c x : ℕ} {r s : Text} → c ≡ b'?' → x ≢ b'\n' → Fits r s → Fits (c ∷ r) (x ∷ s)
  itself : {c x : ℕ} {r s : Text} → c ≢ b'*' → c ≢ b'?' → x ≡ c → Fits r s → Fits (c ∷ r) (x ∷ s)

piece : ℕ → Piece
piece c = if c == b'*' then star any_char else if c == b'?' then one any_char else one (char c)

pieces : Text → List Piece
pieces [] = []
pieces (c ∷ r) = piece c ∷ pieces r

lex-replace_char :
    (c : ℕ) (t : Text) (ps : List Piece)
    → lex false t ≡ some (record { starred = false; pieces = ps })
    → lex false (replace_char c ++ t) ≡ some (record { starred = false; pieces = piece c ∷ ps })
unfolding lex put_atom put_star put_char replace_char piece contains
lex-replace_char c t ps h = ground arith

lex-role_replacer :
    (r : Text) → lex false (role_replacer r) ≡ some (record { starred = false; pieces = pieces r })
unfolding role_replacer pieces
lex-role_replacer [] = unfold lex in refl
lex-role_replacer (c ∷ r) = lex-replace_char c (role_replacer r) (pieces r) (lex-role_replacer r)

piece_star : (c : ℕ) → c ≡ b'*' → piece c ≡ star any_char
unfolding piece
piece_star c e = ground arith

star_ends_matches :
    (ps : List Piece) (s : Text)
    → match_pieces ps s ≡ true
    → match_pieces (star any_char ∷ ps) s ≡ true
unfolding match_pieces
star_ends_matches ps [] h = h
star_ends_matches ps (x ∷ s) h = ground arith

star_goes_on_matches :
    (ps : List Piece) (x : ℕ) (s : Text)
    → x ≢ b'\n'
    → match_pieces (star any_char ∷ ps) s ≡ true
    → match_pieces (star any_char ∷ ps) (x ∷ s) ≡ true
unfolding match_pieces fits
star_goes_on_matches ps x s n h = ground arith

any_one_matches :
    (c x : ℕ) (r s : Text)
    → c ≡ b'?'
    → x ≢ b'\n'
    → match_pieces (pieces r) s ≡ true
    → match_pieces (pieces (c ∷ r)) (x ∷ s) ≡ true
unfolding match_pieces pieces piece fits
any_one_matches c x r s e n h = ground arith

itself_matches :
    (c x : ℕ) (r s : Text)
    → c ≢ b'*'
    → c ≢ b'?'
    → x ≡ c
    → match_pieces (pieces r) s ≡ true
    → match_pieces (pieces (c ∷ r)) (x ∷ s) ≡ true
unfolding match_pieces pieces piece fits
itself_matches c x r s e n p h = ground arith

match-of_fits : {r s : Text} → Fits r s → match_pieces (pieces r) s ≡ true
unfolding pieces
match-of_fits done = unfold match_pieces in refl
match-of_fits (star_ends {c} {r} {s} e h) =
    rw (piece_star c e) (star_ends_matches (pieces r) s (match-of_fits h))
match-of_fits (star_goes_on {c} {x} {r} {s} e n h) =
    rw (piece_star c e)
      (star_goes_on_matches (pieces r) x s n (rw (piece_star c e) at (match-of_fits h)))
match-of_fits (any_one {c} {x} {r} {s} e n h) = any_one_matches c x r s e n (match-of_fits h)
match-of_fits (itself {c} {x} {r} {s} e n p h) = itself_matches c x r s e n p (match-of_fits h)

-- What a match of a first character and a first piece says.
star_cases :
    (ps : List Piece) (x : ℕ) (s : Text)
    → match_pieces (star any_char ∷ ps) (x ∷ s) ≡ true
    → (match_pieces ps (x ∷ s) ≡ true)
      ⊎ ((x ≢ b'\n') × (match_pieces (star any_char ∷ ps) s ≡ true))
unfolding match_pieces fits
star_cases ps x s h = ground arith

other_cases :
    (c x : ℕ) (r s : Text)
    → c ≢ b'*'
    → match_pieces (pieces (c ∷ r)) (x ∷ s) ≡ true
    → (((c ≡ b'?') × (x ≢ b'\n')) ⊎ ((c ≢ b'?') × (x ≡ c))) × (match_pieces (pieces r) s ≡ true)
unfolding match_pieces pieces piece fits
other_cases c x r s n h = ground arith

no_match_at_end : (c : ℕ) (r : Text) → c ≢ b'*' → match_pieces (pieces (c ∷ r)) [] ≡ true → ⊥
unfolding match_pieces pieces piece
no_match_at_end c r n h = ground arith

match_star :
    (c : ℕ) (r s : Text)
    → c ≡ b'*'
    → match_pieces (pieces (c ∷ r)) s ≡ match_pieces (star any_char ∷ pieces r) s
unfolding pieces
match_star c r s e = rw (piece_star c e)

star_at_end : (ps : List Piece) → match_pieces (star any_char ∷ ps) [] ≡ match_pieces ps []
unfolding match_pieces
star_at_end ps = refl

fits-of_match : (r s : Text) → match_pieces (pieces r) s ≡ true → Fits r s
fits-of_match [] [] h = done
fits-of_match [] (x ∷ s) h = unfold match_pieces pieces in cc
fits-of_match (c ∷ r) [] h = elim (Bool-cases (c == b'*')) [
  | inl e ↦
      let star_c : c ≡ b'*' = ground (arith, e) in
      star_ends star_c
        (fits-of_match r [] (cc (match_star c r [] star_c, star_at_end (pieces r), h)))
  | inr e ↦ absurd (no_match_at_end c r (ground (arith, e)) h)
]
fits-of_match (c ∷ r) (x ∷ s) h = elim (Bool-cases (c == b'*')) [
  | inl e ↦
      let star_c : c ≡ b'*' = ground (arith, e) in
      elim (star_cases (pieces r) x s (rw (match_star c r (x ∷ s) star_c) at h)) [
        | inl k ↦ star_ends star_c (fits-of_match r (x ∷ s) k)
        | inr (n, k) ↦
            star_goes_on star_c n (fits-of_match (c ∷ r) s (rw (match_star c r s star_c) k))
      ]
  | inr e ↦
      let (first, k) = other_cases c x r s (ground (arith, e)) h in
      elim first [
        | inl (q, n) ↦ any_one q n (fits-of_match r s k)
        | inr (q, p) ↦ itself (ground (arith, e)) q p (fits-of_match r s k)
      ]
]

-- The regular expression built from a resource compiles, and matches exactly the texts that fit the
-- resource as a pattern.
pub match_whole-role_replacer_iff :
    (r s : Text)
    → (match_whole (role_replacer r) s ≢ none)
      × ((match_whole (role_replacer r) s ≡ some true) ↔ Fits r s)
unfolding match_whole closed
match_whole-role_replacer_iff r s =
    rw (lex-role_replacer r, match_whole)
      (λ h. cc, (λ h. fits-of_match r s (cc h), λ h. cc (match-of_fits h)))
