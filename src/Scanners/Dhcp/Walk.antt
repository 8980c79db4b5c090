-- ===== src/Scanners/Dhcp/Walk.antt =====
-- The walk over the options of a DHCP packet: it ends, and it reads what was written.
use oott.Prelude.{
  ℕ, zero, suc, ◌+◌, ◌≤◌, ◌<◌, ◌≡◌, ◌≢◌, refl, ap, ◌∙◌, sym, none, some, List, [], ◌∷◌, ◌++◌,
  length, if◌then◌else◌, not, length-append, take, drop, get_elem?, unwrap_or, arith, ltb, leb,
  ◌==◌,
}
use mathlib.Core.List.{append_assoc}
use oott.Scanners.Dhcp.{Options, walk_options, read_option, byte_at, slice}

-- The fuel is enough if it is more than the bytes that are left.
pub walk_options-ne-none :
    (fuel : ℕ) (buf : List ℕ) (i : ℕ) (o : Options)
    → length buf < fuel + i
    → i ≤ length buf
    → walk_options fuel buf i o ≢ none
unfolding walk_options
walk_options-ne-none zero buf i o h k = absurd (omega arith)
walk_options-ne-none (suc fuel) buf i o h k = ground (
  arith,
  walk_options-ne-none fuel buf (i + 1) o,
  walk_options-ne-none fuel buf (i + 2 + byte_at buf (i + 1))
      (read_option (byte_at buf i) (slice buf (i + 2) (byte_at buf (i + 1))) o),
)

-- What stands behind a prefix is found at its length.
drop-append : (pre r : List ℕ) (k n : ℕ) → n ≡ length pre + k → drop n (pre ++ r) ≡ drop k r
drop-append [] r k n h = ap (λ m. drop m r) (let e : n ≡ k = omega arith in e)
drop-append (p ∷ pre) r k zero h = absurd (omega arith)
drop-append (p ∷ pre) r k (suc n) h = drop-append pre r k n (omega arith)

get_elem?-append :
    (pre r : List ℕ) (k n : ℕ) → n ≡ length pre + k → get_elem? (pre ++ r) n ≡ get_elem? r k
get_elem?-append [] r k n h = ap (λ m. get_elem? r m) (let e : n ≡ k = omega arith in e)
get_elem?-append (p ∷ pre) r k zero h = absurd (omega arith)
get_elem?-append (p ∷ pre) r k (suc n) h = get_elem?-append pre r k n (omega arith)

take-append : (v r : List ℕ) → take (length v) (v ++ r) ≡ v
take-append [] r = refl
take-append (b ∷ v) r = ap (λ l. b ∷ l) (take-append v r)

-- The options section as a list: padding, and options with a code and a value.
pub data Item : Type 0 where
  pad : Item
  option : (code : ℕ) (value : List ℕ) → Item

abbrev pub encode_item : Item → List ℕ
encode_item pad = 0 ∷ []
encode_item (option code value) = code ∷ length value ∷ value

unfoldable pub encode : List Item → List ℕ
encode [] = []
encode (item ∷ items) = encode_item item ++ encode items

-- A code of an option is neither the padding nor the end.
abbrev pub AreOptions : List Item → Type 0
AreOptions [] = Unit
AreOptions (pad ∷ items) = AreOptions items
AreOptions (option code value ∷ items) = (code ≢ 0) × (code ≢ 255) × AreOptions items

abbrev pub read_item : Item → Options → Options
read_item pad o = o
read_item (option code value) o = read_option code value o

unfoldable pub read_items : List Item → Options → Options
read_items [] o = o
read_items (item ∷ items) o = read_items items (read_item item o)

-- At the end option the walk stops.
walk-end :
    (fuel : ℕ) (buf pre rest : List ℕ) (i : ℕ) (o : Options)
    → buf ≡ pre ++ 255 ∷ rest
    → i ≡ length pre
    → walk_options (suc fuel) buf i o ≡ some o
unfolding walk_options
walk-end fuel buf pre rest i o e h = ground (
  arith,
  get_elem?-append pre (255 ∷ rest) 0 i,
  length-append pre (255 ∷ rest),
  ap length e,
  ap (λ l. get_elem? l i) e,
)

-- At a padding byte the walk goes on behind it.
walk-pad :
    (fuel : ℕ) (pre rest : List ℕ) (i : ℕ) (o : Options)
    → i ≡ length pre
    → walk_options (suc fuel) (pre ++ 0 ∷ rest) i o ≡ walk_options fuel (pre ++ 0 ∷ rest) (i + 1) o
unfolding walk_options
walk-pad fuel pre rest i o h =
    ground (arith, get_elem?-append pre (0 ∷ rest) 0 i, length-append pre (0 ∷ rest))

slice-append :
    (pre v rest : List ℕ) (k : ℕ) → k ≡ length pre → slice (pre ++ (v ++ rest)) k (length v) ≡ v
slice-append pre v rest k h =
    ap (take (length v)) (drop-append pre (v ++ rest) 0 k (omega arith)) ∙ take-append v rest

-- The tests of the walk lead to the last branch where an option stands and its value fits.
tests_pass :
    {A : Type 0} (n i code l : ℕ) (stop padded further : A)
    → code ≢ 0
    → code ≢ 255
    → i + 2 + l ≤ n
    → (if not (ltb i n)
        then stop
        else if code == 255
        then stop
        else if code == 0
        then padded
        else if leb n (i + 1)
        then stop
        else if ltb n (i + 2 + l)
        then stop
        else further)
      ≡ further
tests_pass n i code l stop padded further k e fits = ground arith

-- Where a code and a length stand, and the value fits, the option is read.
walk-step :
    (fuel : ℕ) (buf v : List ℕ) (code i : ℕ) (o : Options)
    → code ≢ 0
    → code ≢ 255
    → byte_at buf i ≡ code
    → byte_at buf (i + 1) ≡ length v
    → slice buf (i + 2) (length v) ≡ v
    → i + 2 + length v ≤ length buf
    → walk_options (suc fuel) buf i o
      ≡ walk_options fuel buf (i + 2 + length v) (read_option code v o)
unfolding walk_options
walk-step fuel buf v code i o k e a b c l =
    rw (a, b, c) (tests_pass (length buf) i code (length v) _ _ _ k e l)

walk-option :
    (fuel : ℕ) (pre rest v : List ℕ) (code i : ℕ) (o : Options)
    → code ≢ 0
    → code ≢ 255
    → i ≡ length pre
    → walk_options (suc fuel) (pre ++ code ∷ length v ∷ (v ++ rest)) i o
      ≡ walk_options fuel
          (pre ++ code ∷ length v ∷ (v ++ rest))
          (i + 2 + length v)
          (read_option code v o)
walk-option fuel pre rest v code i o k e h =
    let tail = code ∷ length v ∷ (v ++ rest) in
    walk-step fuel (pre ++ tail) v code i o k e
      (ap (unwrap_or 0) (get_elem?-append pre tail 0 i (omega arith)))
      (ap (unwrap_or 0) (get_elem?-append pre tail 1 (i + 1) (omega arith)))
      (ap (take (length v)) (drop-append pre tail 2 (i + 2) (omega arith)) ∙ take-append v rest)
      (let a = length-append pre tail in let b = length-append v rest in omega arith)

-- A walk over written options, behind any prefix, reads them one after the other.
pub walk-encode :
    (items : List Item) (fuel : ℕ) (buf pre rest : List ℕ) (i : ℕ) (o : Options)
    → AreOptions items
    → length items < fuel
    → buf ≡ pre ++ (encode items ++ 255 ∷ rest)
    → i ≡ length pre
    → walk_options fuel buf i o ≡ some (read_items items o)
unfolding encode read_items
walk-encode items zero buf pre rest i o valid enough e h = absurd (omega arith)
walk-encode [] (suc fuel) buf pre rest i o valid enough e h = walk-end fuel buf pre rest i o e h
walk-encode (pad ∷ items) (suc fuel) buf pre rest i o valid enough e h =
    let tail = encode items ++ 255 ∷ rest in
    let rest_walk =
      walk-encode items fuel buf (pre ++ 0 ∷ []) rest (i + 1) o valid (omega arith)
        (e ∙ sym (append_assoc pre (0 ∷ []) tail))
        (let l = length-append pre (0 ∷ []) in omega arith) in
    ap (λ b. walk_options (suc fuel) b i o) e
    ∙ walk-pad fuel pre tail i o h
    ∙ ap (λ b. walk_options fuel b (i + 1) o) (sym e)
    ∙ rest_walk
walk-encode (option code v ∷ items) (suc fuel) buf pre rest i o (k, l, valid) enough e h =
    let tail = encode items ++ 255 ∷ rest in
    let head = code ∷ length v ∷ v in
    let split : buf ≡ pre ++ code ∷ length v ∷ (v ++ tail) =
      e ∙ ap (λ t. pre ++ code ∷ length v ∷ t) (append_assoc v (encode items) (255 ∷ rest)) in
    ap (λ b. walk_options (suc fuel) b i o) split
    ∙ walk-option fuel pre tail v code i o k l h
    ∙ ap (λ b. walk_options fuel b (i + 2 + length v) (read_option code v o)) (sym split)
    ∙ walk-encode items fuel buf (pre ++ head) rest (i + 2 + length v) (read_option code v o) valid
        (omega arith) (split ∙ sym (append_assoc pre head tail))
        (let a = length-append pre head in omega arith)
