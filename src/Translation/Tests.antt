-- ===== src/Translation/Tests.antt =====
-- `interpolate` of apps/web/src/lib/i18n.tsx on a question before a deletion.
use go_check_ssl.Prelude.{List, true, Option, map, ◌∷◌, [], ◌≡◌, refl, some, none}
use go_check_ssl.Prelude.Text.{Text, codes, starts_with, truthy}
use go_check_ssl.Prelude.Text.Split.{lacks}
use go_check_ssl.Translation.{interpolate, replace_all}
use go_check_ssl.Translation.Pieces.{Piece, text, hole, render, fill, find_param}
use go_check_ssl.Translation.Filling.{interpolate_fills}
use go_check_ssl.Translation.Lookup.{t, dictionary, find_message}
use go_check_ssl.Translation.Parameters.{find_parameters}
use go_check_ssl.Translation.Complete.{IsKey, t_complete}
use go_check_ssl.Translation.Messages.English.{en_dictionary}
use go_check_ssl.Translation.Messages.German.{de_dictionary}
use go_check_ssl.Translation.Messages.French.{fr_dictionary}
use go_check_ssl.Locale.{de, fr}

abbrev question : Text
question = codes "Delete {{name}}? {{name}} {{n}}"

interpolate_tests :
    (interpolate question none ≡ question)
    × (interpolate question (some ((codes "name", codes "ops") ∷ (codes "n", codes "2") ∷ []))
        ≡ codes "Delete ops? ops 2")
    × (interpolate (codes "a{{x}}b") (some ((codes "x", codes "$&") ∷ [])) ≡ codes "a{{x}}b")
unfolding interpolate replace_all codes starts_with
interpolate_tests = (refl, refl, refl)

-- A template with two names, in a locale that puts them the other way round.
abbrev pieces : List Piece
pieces = hole (codes "n") ∷ text (codes " of ") ∷ hole (codes "name") ∷ []

abbrev both : List (Text × Text)
both = (codes "name", codes "{{n}} ops") ∷ (codes "n", codes "2") ∷ []

abbrev params : List (Text × Text)
params = (codes "name", codes "ops") ∷ (codes "n", codes "2") ∷ []

interpolate_fills_example :
    interpolate (render pieces) (some params) ≡ render (map (fill params) pieces)
unfolding codes
interpolate_fills_example = interpolate_fills pieces params refl refl

-- A value with a placeholder is itself filled in by a later parameter.
filled_again : interpolate (render pieces) (some both) ≡ codes "2 of 2 ops"
unfolding interpolate replace_all codes starts_with render
filled_again = refl

abbrev count : Option (List (Text × Text))
count = some ((codes "count", codes "3") ∷ [])

t_tests :
    (t de "admin.bulkDeleteSuccess" count ≡ codes "3 tenants deleted.")
    × (t fr "nothing" none ≡ codes "nothing")
unfolding t dictionary de_dictionary fr_dictionary en_dictionary replace_all codes starts_with
t_tests = (refl, refl)

is_key : IsKey "admin.bulkDeleteSuccess"
unfolding dictionary en_dictionary find_message
is_key = refl

t_complete_example :
    (lacks b'{' (t de "admin.bulkDeleteSuccess" count) ≡ true)
    × (truthy (t de "admin.bulkDeleteSuccess" count) ≡ true)
unfolding codes find_parameters find_param
t_complete_example = t_complete de "admin.bulkDeleteSuccess" count is_key refl refl
