-- ===== src/Prelude/Text.antt =====
-- Text as bytes, and the splits of the standard library that the program uses.
use Prim.Native.Nat.{ℕ}
use Prim.Native.Char.{code}
use Prim.Native.String.{String}
use mathlib.Core.Path.{◌≡◌, refl}
use mathlib.Core.Bool.{false}
use mathlib.Core.Logic.{◌≢◌}
use mathlib.Core.Option.{Option, none, some}
use mathlib.Core.List.{List, [], ◌∷◌, ◌++◌}
use native.Mathlib.Omega.{arith}
use btrfs_peek.Prelude.Tests.{◌==◌, if◌then◌else◌, ==→eq}
use btrfs_peek.Prelude.Lists.{All}

-- The bytes of an ASCII text.
abbrev pub ascii : String → List ℕ
ascii String.[] = []
ascii (String.◌∷◌ c s) = code c ∷ ascii s

-- The next part of a split, and what follows; `none` where there is no separator.
abbrev pub onto : ℕ → Option (List ℕ × List ℕ) → Option (List ℕ × List ℕ)
onto c none = none
onto c (some (front, back)) = some (c ∷ front, back)

-- `split_once(c)`.
unfoldable pub split_once : ℕ → List ℕ → Option (List ℕ × List ℕ)
split_once sep [] = none
split_once sep (c ∷ cs) = if c == sep then some ([], cs) else onto c (split_once sep cs)

abbrev pub onto_first : ℕ → List (List ℕ) → List (List ℕ)
onto_first c [] = (c ∷ []) ∷ []
onto_first c (p ∷ ps) = (c ∷ p) ∷ ps

-- `split(c)`: one part at least.
unfoldable pub split : ℕ → List ℕ → List (List ℕ)
split sep [] = [] ∷ []
split sep (c ∷ cs) = if c == sep then [] ∷ split sep cs else onto_first c (split sep cs)

-- `strip_prefix`.
unfoldable pub strip_prefix : List ℕ → List ℕ → Option (List ℕ)
strip_prefix [] s = some s
strip_prefix (p ∷ ps) [] = none
strip_prefix (p ∷ ps) (c ∷ cs) = if p == c then strip_prefix ps cs else none

pub strip_prefix-append : (p s : List ℕ) → strip_prefix p (p ++ s) ≡ some s
unfolding strip_prefix
strip_prefix-append [] s = refl
strip_prefix-append (c ∷ p) s = ground (arith, strip_prefix-append p s)

pub strip_prefix_lem : (p s : List ℕ) {r : List ℕ} → strip_prefix p s ≡ some r → s ≡ p ++ r
unfolding strip_prefix
strip_prefix_lem [] s h = ground arith
strip_prefix_lem (c ∷ p) [] h = ground arith
strip_prefix_lem (c ∷ p) (d ∷ s) {r} h = ground (arith, ==→eq c d, strip_prefix_lem p s {r = r})

abbrev pub Lacks : ℕ → List ℕ → Type 0
Lacks sep = All (λ c. (c == sep) ≡ false)

pub split_once-append :
    (sep : ℕ) (a b : List ℕ) → Lacks sep a → split_once sep (a ++ (sep ∷ b)) ≡ some (a, b)
unfolding split_once
split_once-append sep [] b h = ground arith
split_once-append sep (c ∷ a) b h = rw (h.0, split_once-append sep a b h.1)

pub split_once_lem :
    (sep : ℕ) (s : List ℕ) {a b : List ℕ} → split_once sep s ≡ some (a, b) → s ≡ a ++ (sep ∷ b)
unfolding split_once
split_once_lem sep [] h = ground arith
split_once_lem sep (c ∷ s) h = grind (arith, split_once_lem sep s)

-- The parts put together again.
unfoldable pub join : ℕ → List (List ℕ) → List ℕ
join sep [] = []
join sep (p ∷ []) = p
join sep (p ∷ q ∷ ps) = p ++ (sep ∷ join sep (q ∷ ps))

join-onto_first : (sep c : ℕ) (ps : List (List ℕ)) → join sep (onto_first c ps) ≡ c ∷ join sep ps
unfolding join
join-onto_first sep c [] = refl
join-onto_first sep c (p ∷ []) = refl
join-onto_first sep c (p ∷ q ∷ ps) = refl

onto_first-ne : (c : ℕ) (ps : List (List ℕ)) → onto_first c ps ≢ []
onto_first-ne c [] h = cc
onto_first-ne c (p ∷ ps) h = cc

split-ne : (sep : ℕ) (s : List ℕ) → split sep s ≢ []
unfolding split
split-ne sep [] h = cc
split-ne sep (c ∷ s) h = ground (arith, onto_first-ne c (split sep s))

join-nil : (sep : ℕ) (ps : List (List ℕ)) → ps ≢ [] → join sep ([] ∷ ps) ≡ sep ∷ join sep ps
unfolding join
join-nil sep [] h = absurd (h refl)
join-nil sep (p ∷ ps) h = refl

join_empty : (sep : ℕ) → join sep ([] ∷ []) ≡ []
unfolding join
join_empty sep = refl

-- The parts of a text, joined again, are the text.
pub join-split : (sep : ℕ) (s : List ℕ) → join sep (split sep s) ≡ s
unfolding split
join-split sep [] = join_empty sep
join-split sep (c ∷ s) = ground (
  arith,
  ==→eq c sep,
  join-nil sep (split sep s) (split-ne sep s),
  join-onto_first sep c (split sep s),
  join-split sep s,
)

pub split-append :
    (sep : ℕ) (a s : List ℕ) → Lacks sep a → split sep (a ++ (sep ∷ s)) ≡ a ∷ split sep s
unfolding split
split-append sep [] s h = ground arith
split-append sep (c ∷ a) s h = rw (h.0, split-append sep a s h.1)

pub split_whole : (sep : ℕ) (a : List ℕ) → Lacks sep a → split sep a ≡ a ∷ []
unfolding split
split_whole sep [] h = refl
split_whole sep (c ∷ a) h = rw (h.0, split_whole sep a h.1)
