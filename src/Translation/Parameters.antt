-- ===== src/Translation/Parameters.antt =====
-- The parameters of the messages, and the check that a message fits its key.
use package.text.Mathlib.Text.{◌==◌}
use go_check_ssl.Prelude.{String, List, [], ◌∷◌, if◌then◌else◌, Bool, false, ◌&&◌, ◌||◌, every, map}
use go_check_ssl.Prelude.Text.{Text, codes, truthy, text_eq}
use go_check_ssl.Translation.Pieces.{Piece, text, hole, render, parse, parse_hole, holes, are_plain}

-- The keys whose messages take parameters, with those that the program's calls of `t` pass; no call
-- names `domains.portLabel`, `admin.selectedWorkspaceDescription` or `admin.tenantDomainMeta`.
abbrev pub parameters : List (String × List String)
parameters =
    ("domains.intervalPresetDays", "days" ∷ [])
    ∷ ("domains.portLabel", "port" ∷ [])
    ∷ ("domains.targetIpSummary", "value" ∷ [])
    ∷ ("domains.resolvedIpSummary", "value" ∷ [])
    ∷ ("notifications.testSuccess", "name" ∷ [])
    ∷ ("notifications.currentThresholdInput", "value" ∷ [])
    ∷ ("admin.selectedWorkspaceDescription", "email" ∷ "tenant" ∷ [])
    ∷ ("admin.tenantDomainMeta", "status" ∷ "days" ∷ [])
    ∷ ("admin.tenantDetailDescription", "tenantId" ∷ [])
    ∷ ("admin.paginationSummary", "from" ∷ "to" ∷ "total" ∷ [])
    ∷ ("admin.selectedCount", "count" ∷ [])
    ∷ ("admin.bulkDeleteConfirm", "count" ∷ [])
    ∷ ("admin.bulkEnableSuccess", "count" ∷ [])
    ∷ ("admin.bulkDisableSuccess", "count" ∷ [])
    ∷ ("admin.bulkDeleteSuccess", "count" ∷ [])
    ∷ ("admin.bulkPartialSuccess", "success" ∷ "total" ∷ [])
    ∷ []

unfoldable pub find_parameters : String → List (String × List String) → List String
find_parameters key [] = []
find_parameters key ((k, names) ∷ rest) = if k == key then names else find_parameters key rest

unfoldable pub includes_text : List Text → Text → Bool
includes_text [] s = false
includes_text (x ∷ xs) s = text_eq x s || includes_text xs s

-- The holes are the parameters, in whichever order.
unfoldable pub same_names : List Text → List Text → Bool
unfolding includes_text
same_names xs ys = every (includes_text ys) xs && every (includes_text xs) ys

-- Some text that is not empty stands outside the holes.
unfoldable pub has_text : List Piece → Bool
has_text [] = false
has_text (text s ∷ pieces) = truthy s || has_text pieces
has_text (hole key ∷ pieces) = has_text pieces

abbrev pub names_of : String → List Text
names_of key = map codes (find_parameters key parameters)

unfoldable pub fits : String × String → Bool
unfolding find_parameters same_names codes parse parse_hole render holes has_text
fits (key, message) =
    let pieces = parse (codes message) in
    are_plain pieces
    && text_eq (render pieces) (codes message)
    && same_names (holes pieces) (names_of key)
    && has_text pieces
