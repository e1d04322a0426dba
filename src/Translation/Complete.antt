-- ===== src/Translation/Complete.antt =====
-- The dictionaries fit the program: every message of every locale takes the parameters that its key
-- stands for.
use package.text.Mathlib.Text.{◌==◌}
use package.text.Mathlib.TextEquality.{eq_iff}
use go_check_ssl.Prelude.{
  String, List, [], ◌∷◌, ◌++◌, Option, none, some, Bool, true, ◌||◌, ◌≡◌, refl, every, arith, map,
  ap, ◌∙◌, sym, Bool-cases, inl, inr, Option-cases, and-eq-true, is_some,
}
use go_check_ssl.Prelude.Text.{Text, codes, truthy, text_eq, text_eq_iff}
use go_check_ssl.Prelude.Text.Split.{lacks}
use go_check_ssl.Locale.{Locale, en}
use go_check_ssl.Translation.{interpolate, interpolate_params}
use go_check_ssl.Translation.Pieces.{
  Piece, text, hole, render, fill, find_param, parse, holes, are_plain, are_plain_params,
}
use go_check_ssl.Translation.Filling.{interpolate_fills, lacks-append}
use go_check_ssl.Translation.Checked.{fits-dictionary}
use go_check_ssl.Translation.Lookup.{dictionary, find_message, template, t}
use go_check_ssl.Translation.Parameters.{fits, names_of, has_text, same_names, includes_text}

found_fits :
    (key message : String) (rows : List (String × String))
    → every fits rows ≡ true
    → find_message key rows ≡ some message
    → fits (key, message) ≡ true
unfolding find_message
found_fits key message [] h e = cc e
found_fits key message ((k, m) ∷ rows) h e =
    let (here, there) = and-eq-true (fits (k, m)) (every fits rows) h in
    elim (Bool-cases (k == key)) [
      | inl same ↦
          let renamed : k ≡ key = (eq_iff k key).0 same in
          let found : m ≡ message = ground (arith, e, same) in rw⁻¹ (renamed, found) here
      | inr different ↦ found_fits key message rows there (rw different at e)
    ]

-- A key of `enMessages`.
abbrev pub IsKey : String → Type 0
IsKey key = is_some (find_message key (dictionary en)) ≡ true

fits-template :
    (locale : Locale) (key : String) → IsKey key → fits (key, template locale key) ≡ true
unfolding template
fits-template locale key known = elim (Option-cases (find_message key (dictionary locale))) [
  | inl missing ↦ elim (Option-cases (find_message key (dictionary en))) [
    | inl unknown ↦ ground (arith, known, unknown)
    | inr (english, found) ↦
        rw (missing, found) (found_fits key english (dictionary en) (fits-dictionary en) found)
  ]
  | inr (own, found) ↦
      rw found (found_fits key own (dictionary locale) (fits-dictionary locale) found)
]

-- What `fits` checks, one by one.
fits_parts :
    (key message : String)
    → fits (key, message) ≡ true
    → (are_plain (parse (codes message)) ≡ true)
      × (render (parse (codes message)) ≡ codes message)
      × (same_names (holes (parse (codes message))) (names_of key) ≡ true)
      × (has_text (parse (codes message)) ≡ true)
unfolding fits
fits_parts key message h =
    let (three, texts) = and-eq-true _ (has_text (parse (codes message))) h in
    let (two, names) =
      and-eq-true _ (same_names (holes (parse (codes message))) (names_of key)) three in
    let (plain, same) =
      and-eq-true (are_plain (parse (codes message)))
        (text_eq (render (parse (codes message))) (codes message)) two in
    (plain, (text_eq_iff _ _).0 same, names, texts)

-- The parameters of a call of `t`.
abbrev pub given : Option (List (Text × Text)) → List (Text × Text)
given none = []
given (some params) = params

interpolate-given :
    (s : Text) (params : Option (List (Text × Text)))
    → interpolate s params ≡ interpolate s (some (given params))
unfolding interpolate interpolate_params
interpolate-given s none = refl
interpolate-given s (some params) = refl

t_fills :
    (locale : Locale) (key : String) (params : Option (List (Text × Text)))
    → IsKey key
    → are_plain_params (given params) ≡ true
    → t locale key params ≡ render (map (fill (given params)) (parse (codes (template locale key))))
unfolding t
t_fills locale key params known plain =
    let (plain_pieces, same, _, _) =
      fits_parts key (template locale key) (fits-template locale key known) in
    interpolate-given (codes (template locale key)) params
    ∙ ap (λ s. interpolate s (some (given params))) (sym same)
    ∙ interpolate_fills (parse (codes (template locale key))) (given params) plain_pieces plain

find_param-plain :
    (key value : Text) (params : List (Text × Text))
    → are_plain_params params ≡ true
    → find_param key params ≡ some value
    → lacks b'{' value ≡ true
unfolding find_param
find_param-plain key value [] h e = cc e
find_param-plain key value ((k, v) ∷ params) h e =
    ground (arith, h, e, find_param-plain key value params)

abbrev pub has_param : List (Text × Text) → Text → Bool
has_param params key = is_some (find_param key params)

lacks-fill :
    (params : List (Text × Text)) (pieces : List Piece)
    → are_plain pieces ≡ true
    → are_plain_params params ≡ true
    → every (has_param params) (holes pieces) ≡ true
    → lacks b'{' (render (map (fill params) pieces)) ≡ true
unfolding render holes fill
lacks-fill params [] h g e = refl
lacks-fill params (text s ∷ pieces) h g e =
    ground
      (arith, h, lacks-append b'{' s (render (map (fill params) pieces)), lacks-fill params pieces)
lacks-fill params (hole key ∷ pieces) h g e = elim (Option-cases (find_param key params)) [
  | inl missing ↦ ground (arith, missing, e)
  | inr (value, found) ↦
      let plain = find_param-plain key value params g found in
      rw found (
        ground (
          arith,
          h,
          e,
          plain,
          lacks-append b'{' value (render (map (fill params) pieces)),
          lacks-fill params pieces,
        ))
]

pub truthy-append : (s u : Text) → truthy (s ++ u) ≡ (truthy s || truthy u)
truthy-append [] u = refl
truthy-append (c ∷ s) u = refl

truthy-fill :
    (params : List (Text × Text)) (pieces : List Piece)
    → has_text pieces ≡ true
    → truthy (render (map (fill params) pieces)) ≡ true
unfolding render fill has_text codes
truthy-fill params [] h = cc h
truthy-fill params (text s ∷ pieces) h =
    ground
      (arith, h, truthy-append s (render (map (fill params) pieces)), truthy-fill params pieces)
truthy-fill params (hole key ∷ pieces) h = elim (Option-cases (find_param key params)) [
  | inl missing ↦ rw missing refl
  | inr (value, found) ↦ rw found (
      ground (
        arith,
        truthy-append value (render (map (fill params) pieces)),
        truthy-fill params pieces h,
      ))
]

included :
    (p : Text → Bool) (names : List Text) (x : Text)
    → every p names ≡ true
    → includes_text names x ≡ true
    → p x ≡ true
unfolding includes_text
included p [] x h e = cc e
included p (n ∷ names) x h e =
    let (here, there) = and-eq-true (p n) (every p names) h in
    elim (Bool-cases (text_eq n x)) [
      | inl same ↦ rw (← (text_eq_iff n x).0 same) here
      | inr different ↦ included p names x there (rw different at e)
    ]

all_included :
    (p : Text → Bool) (names xs : List Text)
    → every p names ≡ true
    → every (includes_text names) xs ≡ true
    → every p xs ≡ true
all_included p names [] h e = refl
all_included p names (x ∷ xs) h e =
    let (here, there) = and-eq-true (includes_text names x) (every (includes_text names) xs) e in
    ground (arith, included p names x h here, all_included p names xs h there)

-- In every locale, a message that is given the parameters of its key, with keys without braces and
-- values without opening braces and dollar signs, is shown with no opening brace, so that no
-- placeholder is left, and is not empty.
pub t_complete :
    (locale : Locale) (key : String) (params : Option (List (Text × Text)))
    → IsKey key
    → are_plain_params (given params) ≡ true
    → every (has_param (given params)) (names_of key) ≡ true
    → (lacks b'{' (t locale key params) ≡ true) × (truthy (t locale key params) ≡ true)
unfolding same_names
t_complete locale key params known plain covered =
    let (plain_pieces, _, names, texts) =
      fits_parts key (template locale key) (fits-template locale key known) in
    let pieces = parse (codes (template locale key)) in
    let (inside, _) =
      and-eq-true (every (includes_text (names_of key)) (holes pieces))
        (every (includes_text (holes pieces)) (names_of key)) names in
    let filled_in =
      all_included (has_param (given params)) (names_of key) (holes pieces) covered inside in
    rw (t_fills locale key params known plain) (
      lacks-fill (given params) pieces plain_pieces plain filled_in,
      truthy-fill (given params) pieces texts,
    )

-- A key whose messages take no parameters.
abbrev pub IsPlainKey : String → Type 0
IsPlainKey key = IsKey key × (names_of key ≡ [])

pub truthy-t : (locale : Locale) (key : String) → IsPlainKey key → truthy (t locale key none) ≡ true
truthy-t locale key (known, alone) = (t_complete locale key none known refl (rw alone refl)).1
