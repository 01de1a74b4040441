-- ===== src/Prelude/Regexp.antt =====
-- The part of Go's package regexp that `processTrustDomain` reaches: whether `^body$` matches a
-- text, for a body made of characters, escaped characters, dots, and stars behind one of these.
-- Any other body gives `none`.
use Prim.Native.Nat.{ℕ}
use mathlib.Core.Bool.{Bool, true, false, not, ◌&&◌, ◌||◌}
use mathlib.Core.Option
use mathlib.Core.Option.{Option, none, some}
use mathlib.Core.List.{List, [], ◌∷◌}
use k8s_athenz_istio_auth.Prelude.Tests.{◌==◌, if◌then◌else◌}
use k8s_athenz_istio_auth.Prelude.Text.{Text, codes, contains}

-- What stands for one character: a dot, which takes no line feed, or a character.
pub data Atom : Type 0 where
  any_char : Atom
  char : ℕ → Atom

pub data Piece : Type 0 where
  one star : Atom → Piece

-- The pieces of a text, and whether a star stands before them.
pub record Lexed : Type 0 where
  pub starred : Bool
  pub pieces : List Piece

-- An atom before what is read.
unfoldable pub put_atom : Atom → Lexed → Lexed
put_atom a l = record { starred = false; pieces = (if l.starred then star a else one a) ∷ l.pieces }

-- A star before what is read; two stars in a row are an error.
unfoldable pub put_star : Lexed → Option Lexed
put_star l = if l.starred then none else some (record l { starred = true })

-- Characters that are not themselves outside an escape.
abbrev pub operators : Text
operators = codes "^$+?()[{|"

-- One character before what is read; the first argument says that a backslash stands before it.
unfoldable pub put_char : Bool → ℕ → Lexed → Option Lexed
unfolding put_atom put_star
put_char true c l = some (put_atom (char c) l)
put_char false c l =
    if c == b'\\'
    then some l
    else if c == b'.'
    then some (put_atom any_char l)
    else if c == b'*'
    then put_star l
    else if contains operators c
    then none
    else some (put_atom (char c) l)

unfoldable pub lex : Bool → Text → Option Lexed
unfolding put_char
lex true [] = none
lex false [] = some (record { starred = false; pieces = [] })
lex escaped (c ∷ s) = elim (lex (not escaped && (c == b'\\')) s) [
  | none ↦ none
  | some l ↦ put_char escaped c l
]

unfoldable pub fits : Atom → ℕ → Bool
fits any_char c = not (c == b'\n')
fits (char d) c = c == d

-- Whether the pieces match a whole text.
unfoldable pub match_pieces : List Piece → Text → Bool
unfolding fits
match_pieces [] [] = true
match_pieces [] (c ∷ s) = false
match_pieces (one a ∷ ps) [] = false
match_pieces (one a ∷ ps) (c ∷ s) = fits a c && match_pieces ps s
match_pieces (star a ∷ ps) [] = match_pieces ps []
match_pieces (star a ∷ ps) (c ∷ s) =
    let here = match_pieces ps (c ∷ s) in
    let more = match_pieces (star a ∷ ps) s in here || (fits a c && more)

-- A star that no atom stands before is an error.
unfoldable pub closed : Lexed → Option (List Piece)
closed l = if l.starred then none else some l.pieces

-- `regexp.MatchString("^" + body + "$", s)`; `none` is an error.
unfoldable pub match_whole : Text → Text → Option Bool
unfolding lex closed match_pieces
match_whole body s = elim (lex false body) [
  | none ↦ none
  | some l ↦ Option.map (λ ps. match_pieces ps s) (closed l)
]
