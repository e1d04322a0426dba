-- ===== src/Translation/Pieces.antt =====
-- Templates as sequences of texts and holes: what `interpolate` of apps/web/src/lib/i18n.tsx is to
-- do with one, all parameters at once.
use go_check_ssl.Prelude.{
  ℕ, Bool, List, [], ◌∷◌, ◌++◌, ◌==◌, ◌&&◌, if◌then◌else◌, Option, none, some, every,
}
use go_check_ssl.Prelude.Text.{Text, text_eq}
use go_check_ssl.Prelude.Text.Split.{lacks}
use go_check_ssl.Translation.{placeholder}

pub data Piece : Type 0 where
  text : Text → Piece
  hole : (key : Text) → Piece

unfoldable pub render : List Piece → Text
unfolding placeholder
render [] = []
render (text s ∷ pieces) = s ++ render pieces
render (hole key ∷ pieces) = placeholder key ++ render pieces

unfoldable pub find_param : Text → List (Text × Text) → Option Text
find_param key [] = none
find_param key ((k, value) ∷ params) = if text_eq k key then some value else find_param key params

abbrev pub filled : Text → Option Text → Piece
filled key none = hole key
filled key (some value) = text value

-- A hole whose key has no value stays.
unfoldable pub fill : List (Text × Text) → Piece → Piece
unfolding find_param
fill params (text s) = text s
fill params (hole key) = filled key (find_param key params)

abbrev pub no_braces : Text → Bool
no_braces s = lacks b'{' s && lacks b'}' s

abbrev pub is_plain_piece : Piece → Bool
is_plain_piece (text s) = lacks b'{' s
is_plain_piece (hole key) = no_braces key

abbrev pub is_plain_param : Text × Text → Bool
is_plain_param (key, value) = no_braces key && (lacks b'{' value && lacks b'$' value)

abbrev pub are_plain : List Piece → Bool
are_plain pieces = every is_plain_piece pieces

abbrev pub are_plain_params : List (Text × Text) → Bool
are_plain_params params = every is_plain_param params

-- The keys of the holes, from the left.
unfoldable pub holes : List Piece → List Text
holes [] = []
holes (text s ∷ pieces) = holes pieces
holes (hole key ∷ pieces) = key ∷ holes pieces

-- A character in front.
cons_text : ℕ → List Piece → List Piece
cons_text c (text s ∷ pieces) = text (c ∷ s) ∷ pieces
cons_text c pieces = text (c ∷ []) ∷ pieces

-- Reading a template: inside a hole the characters of its key are gathered in reverse.
unfoldable mutual
  unfolding cons_text

  pub parse : Text → List Piece
  parse [] = []
  parse (c ∷ []) = text (c ∷ []) ∷ []
  parse (c ∷ d ∷ s) =
      let inside = parse_hole [] s in
      let outside = parse (d ∷ s) in
      if (c == b'{') && (d == b'{') then inside else cons_text c outside

  pub parse_hole : Text → Text → List Piece
  parse_hole key [] = hole key ∷ []
  parse_hole key (c ∷ []) = hole key ∷ []
  parse_hole key (c ∷ d ∷ s) =
      let closed = parse s in
      let longer = parse_hole (key ++ c ∷ []) (d ∷ s) in
      if (c == b'}') && (d == b'}') then hole key ∷ closed else longer
