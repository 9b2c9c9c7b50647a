-- ===== src/Base/Text.antt =====
-- Text as code points, and what the code uses of Go's strings, net.SplitHostPort and
-- strconv.Atoi. Case is folded for ASCII letters alone: host names reach the node in ASCII.
use Prim.Native.Nat.{ℕ, zero, suc, ◌+◌, ◌-◌, ◌*◌, ◌^◌, min}
use Prim.Native.Char.{code}
use Prim.Native.String.{String}
use mathlib.Core.Path.{◌≡◌, refl, sym, ap, ◌∙◌}
use mathlib.Core.Logic.{◌↔◌}
use mathlib.Core.Bool.{Bool, true, false, ◌&&◌, ◌||◌}
use mathlib.Core.Option.{Option, none, some}
use mathlib.Core.List.{List, [], ◌∷◌, ◌++◌, map, reverse, reverse-reverse, reverse-append}
use native.Mathlib.Omega.{arith}
use rmvpn.Base.Tests.{eqb, leb, ltb, if◌then◌else◌}
use rmvpn.Base.Lists.{any}
use rmvpn.Base.Int.{ℤ, pos, negsuc}

abbrev pub Runes : Type 0
Runes = List ℕ

-- The code points of a literal.
abbrev pub codes : String → Runes
codes String.[] = []
codes (String.◌∷◌ c s) = code c ∷ codes s

abbrev pub same_runes : Runes → Runes → Bool
same_runes [] [] = true
same_runes [] (y ∷ ys) = false
same_runes (x ∷ xs) [] = false
same_runes (x ∷ xs) (y ∷ ys) = eqb x y && same_runes xs ys

abbrev pub has_prefix : Runes → Runes → Bool
has_prefix xs [] = true
has_prefix [] (y ∷ ys) = false
has_prefix (x ∷ xs) (y ∷ ys) = eqb x y && has_prefix xs ys

abbrev pub has_suffix : Runes → Runes → Bool
has_suffix xs ys = has_prefix (reverse xs) (reverse ys)

-- strings.Contains(xs, ys)
unfoldable pub has_part : Runes → Runes → Bool
has_part [] ys = has_prefix [] ys
has_part (x ∷ xs) ys = has_prefix (x ∷ xs) ys || has_part xs ys

-- strings.ContainsAny(xs, cs)
unfoldable pub has_any : Runes → Runes → Bool
has_any xs cs = any (λ x. any (eqb x) cs) xs

cut_prefix : Runes → Runes → Option Runes
cut_prefix xs [] = some xs
cut_prefix [] (y ∷ ys) = none
cut_prefix (x ∷ xs) (y ∷ ys) = let rest = cut_prefix xs ys in if eqb x y then rest else none

or_same : Runes → Option Runes → Runes
or_same xs none = xs
or_same xs (some ys) = ys

unfoldable pub trim_prefix : Runes → Runes → Runes
unfolding cut_prefix or_same
trim_prefix xs p = or_same xs (cut_prefix xs p)

unfoldable pub trim_suffix : Runes → Runes → Runes
unfolding trim_prefix
trim_suffix xs p = reverse (trim_prefix (reverse xs) (reverse p))

lower_rune : ℕ → ℕ
lower_rune c = if leb b'A' c && leb c b'Z' then c + 32 else c

unfoldable pub to_lower : Runes → Runes
unfolding lower_rune
to_lower = map lower_rune

-- unicode.IsSpace
is_space : ℕ → Bool
is_space c =
    (leb 0x09 c && leb c 0x0d)
    || eqb c 0x20
    || eqb c 0x85
    || eqb c 0xa0
    || eqb c 0x1680
    || (leb 0x2000 c && leb c 0x200a)
    || eqb c 0x2028
    || eqb c 0x2029
    || eqb c 0x202f
    || eqb c 0x205f
    || eqb c 0x3000

drop_spaces : Runes → Runes
drop_spaces [] = []
drop_spaces (c ∷ cs) = let rest = drop_spaces cs in if is_space c then rest else c ∷ cs

unfoldable pub trim_space : Runes → Runes
unfolding is_space drop_spaces
trim_space cs = reverse (drop_spaces (reverse (drop_spaces cs)))

with_head : ℕ → Option (Runes × Runes) → Option (Runes × Runes)
with_head x none = none
with_head x (some (before, rest)) = some (x ∷ before, rest)

-- What stands before and behind the first `c`.
cut_first : ℕ → Runes → Option (Runes × Runes)
unfolding with_head
cut_first c [] = none
cut_first c (x ∷ xs) =
    let later = with_head x (cut_first c xs) in if eqb x c then some ([], xs) else later

reversed : Option (Runes × Runes) → Option (Runes × Runes)
reversed none = none
reversed (some (behind, before)) = some (reverse before, reverse behind)

cut_last : ℕ → Runes → Option (Runes × Runes)
unfolding cut_first reversed
cut_last c xs = reversed (cut_first c (reverse xs))

has_rune : ℕ → Runes → Bool
has_rune c = any (λ x. eqb x c)

bracketed : Option (Runes × Runes) → Runes → Option (Runes × Runes)
unfolding has_rune
bracketed (some (host, [])) port =
    if has_rune b'[' host || has_rune b'[' port || has_rune b']' port
    then none
    else some (host, port)
bracketed _ port = none

plain : Runes → Runes → Option (Runes × Runes)
unfolding has_rune
plain host port =
    if has_rune b':' host || has_any (host ++ port) (b'[' ∷ b']' ∷ [])
    then none
    else some (host, port)

host_port : Option (Runes × Runes) → Option (Runes × Runes)
unfolding cut_first bracketed plain has_any
host_port none = none
host_port (some ([], port)) = plain [] port
host_port (some (c ∷ front, port)) =
    if eqb c b'[' then bracketed (cut_first b']' front) port else plain (c ∷ front) port

-- net.SplitHostPort; `none` is its error.
unfoldable pub split_host_port : Runes → Option (Runes × Runes)
unfolding cut_last host_port
split_host_port xs = host_port (cut_last b':' xs)

-- The digits' value, cut off at 2^64 - 1 as soon as it passes that; `none` at any other character.
digits_value : ℕ → Runes → Option ℕ
digits_value n [] = some n
digits_value n (c ∷ cs) =
    let m = n * 10 + (c - b'0') in
    let more = digits_value m cs in
    if leb b'0' c && leb c b'9'
    then if ltb (2 ^ 64 - 1) m then some (2 ^ 64 - 1) else more
    else none

magnitude : Runes → Option ℕ
unfolding digits_value
magnitude [] = none
magnitude (c ∷ cs) = digits_value 0 (c ∷ cs)

positive : Option ℕ → ℤ
positive none = pos 0
positive (some n) = pos (min n (2 ^ 63 - 1))

negative : Option ℕ → ℤ
negative none = pos 0
negative (some n) = if eqb n 0 then pos 0 else negsuc (min n (2 ^ 63) - 1)

-- The number that strconv.Atoi returns, with its error dropped: 0 where the text is no number, and
-- the nearest int64 where it is out of range.
unfoldable pub atoi : Runes → ℤ
unfolding magnitude positive negative
atoi [] = pos 0
atoi (c ∷ cs) =
    if eqb c b'-'
    then negative (magnitude cs)
    else if eqb c b'+'
    then positive (magnitude cs)
    else positive (magnitude (c ∷ cs))

unsigned : Option ℕ → Option ℤ
unsigned none = none
unsigned (some n) = if ltb n (2 ^ 63) then some (pos n) else none

negated : Option ℕ → Option ℤ
negated none = none
negated (some zero) = some (pos 0)
negated (some (suc n)) = if ltb n (2 ^ 63) then some (negsuc n) else none

-- strconv.ParseInt(text, 10, 64); `none` is its error.
unfoldable pub parse_int : Runes → Option ℤ
unfolding magnitude unsigned negated
parse_int [] = none
parse_int (c ∷ cs) =
    if eqb c b'-'
    then negated (magnitude cs)
    else if eqb c b'+'
    then unsigned (magnitude cs)
    else unsigned (magnitude (c ∷ cs))

pub same_runes_iff : (xs ys : Runes) → (same_runes xs ys ≡ true) ↔ (xs ≡ ys)
same_runes_iff [] [] = (λ _. refl, λ _. refl)
same_runes_iff [] (y ∷ ys) = (λ h. cc, λ h. cc)
same_runes_iff (x ∷ xs) [] = (λ h. cc, λ h. cc)
same_runes_iff (x ∷ xs) (y ∷ ys) =
    (λ h. ground (arith, (same_runes_iff xs ys).0), λ h. ground (arith, (same_runes_iff xs ys).1))

split_ipv6 : split_host_port (codes "[::1]:443") ≡ some (codes "::1", codes "443")
unfolding split_host_port
split_ipv6 = refl

split_plain : split_host_port (codes "a.b:80") ≡ some (codes "a.b", codes "80")
unfolding split_host_port
split_plain = refl

split_refused :
    (split_host_port (codes "a.b") ≡ none)
    × (split_host_port (codes "a:b:1") ≡ none)
    × (split_host_port (codes "[a]x:1") ≡ none)
unfolding split_host_port
split_refused = (refl, refl, refl)

atoi_reads :
    (atoi (codes "6881") ≡ pos 6881) × (atoi (codes "-7") ≡ negsuc 6) × (atoi (codes "8x") ≡ pos 0)
unfolding atoi
atoi_reads = (refl, refl, refl)

trims : trim_suffix (trim_space (codes " Tracker.io. ")) (codes ".") ≡ codes "Tracker.io"
unfolding trim_suffix trim_space
trims = refl

has_prefix_iff : (xs ys : Runes) → (has_prefix xs ys ≡ true) ↔ ((rest : Runes) × (xs ≡ ys ++ rest))
has_prefix_iff xs [] = (λ _. (xs, refl), λ _. refl)
has_prefix_iff [] (y ∷ ys) = (λ h. cc, λ (rest, e). cc)
has_prefix_iff (x ∷ xs) (y ∷ ys) = (
  λ h. (let (rest, e) = (has_prefix_iff xs ys).0 (ground arith) in (rest, ground (arith, e, h))),
  λ (rest, e). ground (arith, (has_prefix_iff xs ys).1 (rest, ground (arith, e)), e),
)

-- A suffix is what a text ends in.
pub has_suffix_iff :
    (xs ys : Runes) → (has_suffix xs ys ≡ true) ↔ ((name : Runes) × (xs ≡ name ++ ys))
has_suffix_iff xs ys = (
  λ h.
      (let (rest, e) = (has_prefix_iff (reverse xs) (reverse ys)).0 h in
        (
          reverse rest,
          sym (reverse-reverse xs)
              ∙ ap reverse e
              ∙ reverse-append (reverse ys) rest
              ∙ ap (reverse rest ++◌) (reverse-reverse ys),
        )),
  λ (name, e).
      (has_prefix_iff (reverse xs) (reverse ys)).1
        (reverse name, ap reverse e ∙ reverse-append name ys),
)
