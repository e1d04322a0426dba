-- ===== src/Translation/Filling.antt =====
-- One `replaceAll` after the other fills the holes of a template as all at once would.
use go_check_ssl.Prelude.{
  ℕ, zero, true, false, not, List, [], ◌∷◌, ◌++◌, ◌==◌, ◌&&◌, if◌then◌else◌, ◌≡◌, refl, ap, sym,
  ◌∙◌, arith, and-eq-true, some, Bool-cases, inl, inr, map,
}
use mathlib.Core.List.{append_assoc}
use go_check_ssl.Prelude.Text.{Text, codes, starts_with, text_eq, text_eq_iff}
use go_check_ssl.Prelude.Text.Split.{lacks}
use go_check_ssl.Translation.{
  replace_from, replace_all, placeholder, interpolate_params, interpolate,
}
use go_check_ssl.Translation.Laws.{
  substitute-plain, placeholder_lem, replaced, prefixed, replace_from-plain,
}
use go_check_ssl.Translation.Pieces.{
  Piece, text, hole, render, find_param, fill, no_braces, is_plain_param, are_plain,
  are_plain_params,
}

-- Two keys without closing braces.
closed_key :
    (k key rest : Text)
    → lacks b'}' k ≡ true
    → lacks b'}' key ≡ true
    → starts_with (k ++ (codes "}}" ++ rest)) (key ++ codes "}}") ≡ text_eq key k
unfolding starts_with codes
closed_key [] [] rest h g = refl
closed_key [] (c ∷ key) rest h g = ground (arith, g)
closed_key (c ∷ k) [] rest h g = ground (arith, h)
closed_key (c ∷ k) (d ∷ key) rest h g =
    let (here, there) = and-eq-true (not (c == b'}')) (lacks b'}' k) h in
    let (here', there') = and-eq-true (not (d == b'}')) (lacks b'}' key) g in
    rw (closed_key k key rest there there') (ground arith)

pub lacks-append : (c : ℕ) (s t : Text) → lacks c (s ++ t) ≡ (lacks c s && lacks c t)
lacks-append c [] t = refl
lacks-append c (x ∷ s) t = ground (arith, lacks-append c s t)

-- No placeholder begins at the second brace of another one.
second_brace :
    (k rest p : Text)
    → lacks b'{' k ≡ true
    → starts_with (k ++ (codes "}}" ++ rest)) (b'{' ∷ p) ≡ false
unfolding starts_with codes
second_brace [] rest p h = refl
second_brace (c ∷ k) rest p h =
    let (here, _) = and-eq-true (not (c == b'{')) (lacks b'{' k) h in
    let other : (c == b'{') ≡ false = ground (arith, here) in rw other refl

module _ (key value rest r : Text)
    (k : (b : Text) → replace_from b zero (placeholder key) value rest ≡ r) where
  -- The placeholder of the key.
  replaced_hole :
      (before : Text)
      → lacks b'$' value ≡ true
      → replace_from before zero (placeholder key) value (placeholder key ++ rest) ≡ value ++ r
  replaced_hole before plain =
      ap (λ p. replace_from before zero (placeholder key) value (p ++ rest)) (placeholder_lem key)
      ∙ replaced before key value rest r k
      ∙ ap (λ s. s ++ r) (substitute-plain before (placeholder key) rest value plain)

  -- The placeholder of another key.
  kept_hole :
      (before other : Text)
      → no_braces key ≡ true
      → no_braces other ≡ true
      → text_eq key other ≡ false
      → replace_from before zero (placeholder key) value (placeholder other ++ rest)
        ≡ placeholder other ++ r
  unfolding replace_from placeholder codes starts_with
  kept_hole before other h g e =
      let (open_key, close_key) = and-eq-true (lacks b'{' key) (lacks b'}' key) h in
      let (open_other, close_other) = and-eq-true (lacks b'{' other) (lacks b'}' other) g in
      let behind : lacks b'{' (other ++ codes "}}") ≡ true =
        lacks-append b'{' other (codes "}}") ∙ rw open_other refl in
      let first = closed_key other key rest close_other close_key ∙ e in
      let second = second_brace other rest (key ++ codes "}}") open_other in
      rw (append_assoc other (codes "}}") rest, first, second)
        (ap (λ s. b'{' ∷ b'{' ∷ s)
          (ap (replace_from ((before ++ b'{' ∷ []) ++ b'{' ∷ []) zero (placeholder key) value)
              (sym (append_assoc other (codes "}}") rest))
            ∙ prefixed ((before ++ b'{' ∷ []) ++ b'{' ∷ []) key value (other ++ codes "}}") rest r
                behind k))

-- One parameter at a hole's key.
abbrev fill_one : (key value : Text) → Piece → Piece
fill_one key value (text s) = text s
fill_one key value (hole other) = if text_eq key other then text value else hole other

-- `replaceAll` fills the holes of one key, and leaves all else.
replace_all-render :
    (key value : Text) (pieces : List Piece) (before : Text)
    → is_plain_param (key, value) ≡ true
    → are_plain pieces ≡ true
    → replace_from before zero (placeholder key) value (render pieces)
      ≡ render (map (fill_one key value) pieces)
unfolding render
replace_all-render key value [] before h g = replace_from-plain before key value [] refl
replace_all-render key value (text s ∷ pieces) before h g =
    let (here, there) = and-eq-true (lacks b'{' s) (are_plain pieces) g in
    prefixed before key value s (render pieces) _ here
      (λ b. replace_all-render key value pieces b h there)
replace_all-render key value (hole other ∷ pieces) before h g =
    let (here, there) = and-eq-true (no_braces other) (are_plain pieces) g in
    let (keyed, valued) = and-eq-true (no_braces key) (lacks b'{' value && lacks b'$' value) h in
    let (_, no_dollars) = and-eq-true (lacks b'{' value) (lacks b'$' value) valued in
    let rest = λ (b : Text). replace_all-render key value pieces b h there in
    elim (Bool-cases (text_eq key other)) [
      | inl same ↦
          let equal : key ≡ other = (text_eq_iff key other).0 same in
          rw same (
            ap
              (λ o.
                replace_from before zero (placeholder key) value (placeholder o ++ render pieces))
              (sym equal)
            ∙ replaced_hole key value (render pieces) _ rest before no_dollars)
      | inr different ↦
          rw different
            (kept_hole key value (render pieces) _ rest before other keyed here different)
    ]

map-plain :
    (key value : Text) (pieces : List Piece)
    → is_plain_param (key, value) ≡ true
    → are_plain pieces ≡ true
    → are_plain (map (fill_one key value) pieces) ≡ true
map-plain key value [] h g = refl
map-plain key value (text s ∷ pieces) h g = ground (arith, map-plain key value pieces h)
map-plain key value (hole other ∷ pieces) h g = ground (arith, map-plain key value pieces h)

fill-fill_one :
    (key value : Text) (params : List (Text × Text)) (pieces : List Piece)
    → map (fill params) (map (fill_one key value) pieces)
      ≡ map (fill ((key, value) ∷ params)) pieces
unfolding fill find_param
fill-fill_one key value params [] = refl
fill-fill_one key value params (text s ∷ pieces) =
    ap (λ ps. text s ∷ ps) (fill-fill_one key value params pieces)
fill-fill_one key value params (hole other ∷ pieces) =
    let rest = fill-fill_one key value params pieces in
    elim (Bool-cases (text_eq key other)) [
      | inl same ↦ rw same (ap (λ ps. text value ∷ ps) rest)
      | inr different ↦ rw different (ap (λ ps. fill params (hole other) ∷ ps) rest)
    ]

fill_nothing : (pieces : List Piece) → map (fill []) pieces ≡ pieces
unfolding fill find_param
fill_nothing [] = refl
fill_nothing (text s ∷ pieces) = ap (λ ps. text s ∷ ps) (fill_nothing pieces)
fill_nothing (hole key ∷ pieces) = ap (λ ps. hole key ∷ ps) (fill_nothing pieces)

-- `interpolate`, which replaces one parameter after the other, fills in all holes at once: of a
-- template whose texts have no opening brace and whose keys have no braces, and with parameters
-- whose keys have no braces and whose values have neither opening braces nor dollar signs, each
-- placeholder becomes the value of its key, and stays where there is none.
pub interpolate_fills :
    (pieces : List Piece) (params : List (Text × Text))
    → are_plain pieces ≡ true
    → are_plain_params params ≡ true
    → interpolate (render pieces) (some params) ≡ render (map (fill params) pieces)
unfolding interpolate interpolate_params replace_all
interpolate_fills pieces [] h g = ap render (sym (fill_nothing pieces))
interpolate_fills pieces ((key, value) ∷ params) h g =
    let (here, there) = and-eq-true (is_plain_param (key, value)) (are_plain_params params) g in
    let filled_one = map (fill_one key value) pieces in
    ap (λ s. interpolate s (some params)) (replace_all-render key value pieces [] here h)
    ∙ interpolate_fills filled_one params (map-plain key value pieces here h) there
    ∙ ap render (fill-fill_one key value params pieces)
