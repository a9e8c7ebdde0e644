-- ===== src/Text.antt =====
-- Go's strings as lists of code points, and the functions of the packages strings, unicode and
-- utf8 that the program calls. The table behind `unicode.ToLower` is a parameter.
use Prim.Native.Char.{code}
use Prim.Native.String.{String}
use domain_monitor.Base.{
  ℕ, zero, suc, ◌+◌, ◌-◌, ◌*◌, ◌≡◌, refl, ◌↔◌, Bool, true, false, ◌&&◌, ◌||◌, List, [], ◌∷◌, ◌++◌,
  map, reverse, Option, none, some, arith, leb, ◌==◌, if◌then◌else◌, Eq, is_some, any,
}

abbrev pub Text : Type 0
Text = List ℕ

-- The code points of a literal.
abbrev pub codes : String → Text
codes String.[] = []
codes (String.◌∷◌ c s) = code c ∷ codes s

unfoldable pub text_beq : Text → Text → Bool
text_beq [] [] = true
text_beq [] (y ∷ ys) = false
text_beq (x ∷ xs) [] = false
text_beq (x ∷ xs) (y ∷ ys) = x == y && text_beq xs ys

text_beq-eq : (a b : Text) → text_beq a b ≡ true → a ≡ b
unfolding text_beq
text_beq-eq [] [] h = refl
text_beq-eq [] (y ∷ ys) h = ground arith
text_beq-eq (x ∷ xs) [] h = ground arith
text_beq-eq (x ∷ xs) (y ∷ ys) h = ground (arith, text_beq-eq xs ys)

text_beq_refl : (a : Text) → text_beq a a ≡ true
unfolding text_beq
text_beq_refl [] = refl
text_beq_refl (x ∷ xs) = ground (arith, text_beq_refl xs)

pub text_beq_iff : (a b : Text) → (text_beq a b ≡ true) ↔ (a ≡ b)
text_beq_iff a b = (text_beq-eq a b, λ e. rw e (text_beq_refl b))

instance abbrev pub text_eq : Eq Text
text_eq = record { beq = text_beq; beq_iff = text_beq_iff }

-- unicode.IsSpace
unfoldable pub is_space : ℕ → Bool
is_space c =
    leb 9 c && leb c 13
    || c == 32
    || c == 0x85
    || c == 0xa0
    || c == 0x1680
    || leb 0x2000 c && leb c 0x200a
    || c == 0x2028
    || c == 0x2029
    || c == 0x202f
    || c == 0x205f
    || c == 0x3000

unfoldable pub trim_left : (ℕ → Bool) → Text → Text
trim_left p [] = []
trim_left p (c ∷ s) = elim (p c) [ true ↦ trim_left p s | false ↦ c ∷ s ]

-- strings.TrimFunc
unfoldable pub trim : (ℕ → Bool) → Text → Text
unfolding trim_left
trim p s = reverse (trim_left p (reverse (trim_left p s)))

unfoldable pub trim_space : Text → Text
unfolding trim is_space
trim_space s = trim is_space s

-- What stands behind a prefix, if the text has it.
unfoldable pub strip_prefix : Text → Text → Option Text
strip_prefix s [] = some s
strip_prefix [] (p ∷ ps) = none
strip_prefix (c ∷ s) (p ∷ ps) = if c == p then strip_prefix s ps else none

unfoldable pub has_prefix : Text → Text → Bool
unfolding strip_prefix
has_prefix s p = is_some (strip_prefix s p)

unfoldable pub trim_prefix : Text → Text → Text
unfolding strip_prefix
trim_prefix s p = elim (strip_prefix s p) [ none ↦ s | some rest ↦ rest ]

unfoldable pub has_suffix : Text → Text → Bool
unfolding has_prefix
has_suffix s p = has_prefix (reverse s) (reverse p)

unfoldable pub trim_suffix : Text → Text → Text
unfolding strip_prefix
trim_suffix s p = elim (strip_prefix (reverse s) (reverse p)) [
  | none ↦ s
  | some rest ↦ reverse rest
]

-- strings.Contains
unfoldable pub has_substring : Text → Text → Bool
unfolding has_prefix
has_substring [] p = has_prefix [] p
has_substring (c ∷ s) p = has_prefix (c ∷ s) p || has_substring s p

-- strings.Cut at a separator of one character: what stands before it, and behind it if it is there.
unfoldable pub cut : ℕ → Text → Text × Option Text
cut sep [] = ([], none)
cut sep (c ∷ s) =
    let (before, rest) = cut sep s in if c == sep then ([], some s) else (c ∷ before, rest)

unfoldable pub join : Text → List Text → Text
join sep [] = []
join sep (t ∷ []) = t
join sep (t ∷ u ∷ ts) = t ++ (sep ++ join sep (u ∷ ts))

-- strings.TrimRight and the like with a set of characters.
abbrev pub one_of : Text → ℕ → Bool
one_of chars c = any (λ d. d == c) chars

-- strconv.Atoi gives no error: an optional sign, then digits, within the range of int64.
unfoldable pub digits_value : Text → ℕ → Option ℕ
digits_value [] acc = some acc
digits_value (c ∷ s) acc =
    let rest = digits_value s (10 * acc + (c - b'0')) in
    if leb b'0' c && leb c b'9' then rest else none

unfoldable pub within : ℕ → Text → Bool
unfolding digits_value
within limit [] = false
within limit (c ∷ s) = elim (digits_value (c ∷ s) 0) [ none ↦ false | some n ↦ leb n limit ]

unfoldable pub atoi_accepts : Text → Bool
unfolding within
atoi_accepts [] = false
atoi_accepts (c ∷ s) =
    if c == b'-'
    then within 9223372036854775808 s
    else if c == b'+'
    then within 9223372036854775807 s
    else within 9223372036854775807 (c ∷ s)

-- utf8.RuneLen of a valid code point, and the length of a string in bytes.
unfoldable pub rune_len : ℕ → ℕ
rune_len c = if leb c 0x7f then 1 else if leb c 0x7ff then 2 else if leb c 0xffff then 3 else 4

unfoldable pub byte_len : Text → ℕ
unfolding rune_len
byte_len [] = 0
byte_len (c ∷ s) = rune_len c + byte_len s

pub byte_len-append : (s t : Text) → byte_len (s ++ t) ≡ byte_len s + byte_len t
unfolding byte_len
byte_len-append [] t = omega arith
byte_len-append (c ∷ s) t = omega (arith, byte_len-append s t)

-- `s[:n]` and `s[n:]`. A cut inside a character leaves bytes that decode as U+FFFD, one each.
unfoldable pub replacement : ℕ → Text
replacement zero = []
replacement (suc n) = 0xfffd ∷ replacement n

unfoldable pub take_bytes : ℕ → Text → Text
unfolding rune_len replacement
take_bytes n [] = []
take_bytes n (c ∷ s) =
    let rest = take_bytes (n - rune_len c) s in
    if n == 0 then [] else if leb (rune_len c) n then c ∷ rest else replacement n

unfoldable pub drop_bytes : ℕ → Text → Text
unfolding rune_len replacement
drop_bytes n [] = []
drop_bytes n (c ∷ s) =
    let rest = drop_bytes (n - rune_len c) s in
    if n == 0 then c ∷ s else if leb (rune_len c) n then rest else replacement (rune_len c - n) ++ s

-- The parts of a text between separators, but for an empty one at the end.
unfoldable pub parts : ℕ → Text → List Text
parts sep [] = []
parts sep (c ∷ s) =
    let rest = parts sep s in
    if c == sep then [] ∷ rest else elim rest [ [] ↦ (c ∷ []) ∷ [] | p ∷ ps ↦ (c ∷ p) ∷ ps ]

-- The tables of the package unicode: ToLower, ToUpper, and whether two characters are equal under
-- SimpleFold.
pub record Unicode : Type 0 where
  pub to_lower : ℕ → ℕ
  pub to_upper : ℕ → ℕ
  pub same_fold : ℕ → ℕ → Bool

unfoldable pub to_lower : Unicode → Text → Text
to_lower u s = map u.to_lower s

unfoldable pub to_upper : Unicode → Text → Text
to_upper u s = map u.to_upper s

-- strings.EqualFold
unfoldable pub equal_fold : Unicode → Text → Text → Bool
equal_fold u [] [] = true
equal_fold u [] (y ∷ ys) = false
equal_fold u (x ∷ xs) [] = false
equal_fold u (x ∷ xs) (y ∷ ys) = u.same_fold x y && equal_fold u xs ys

abbrev pub ascii_lower : ℕ → ℕ
ascii_lower c = if leb b'A' c && leb c b'Z' then c + 32 else c

abbrev pub ascii_upper : ℕ → ℕ
ascii_upper c = if leb b'a' c && leb c b'z' then c - 32 else c

-- The tables on ASCII, for tests.
abbrev pub ascii : Unicode
ascii = record {
  to_lower = ascii_lower;
  to_upper = ascii_upper;
  same_fold = λ c d. ascii_lower c == ascii_lower d;
}

trim_space_runs : trim_space (codes "\t a b. ") ≡ codes "a b."
unfolding trim_space
trim_space_runs = refl

has_suffix_runs : has_suffix (codes "www.example.com") (codes ".example.com") ≡ true
unfolding has_suffix
has_suffix_runs = refl

cut_runs : cut b'=' (codes "v=DMARC1=x") ≡ (codes "v", some (codes "DMARC1=x"))
unfolding cut
cut_runs = refl
