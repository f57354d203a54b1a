-- ===== src/Repo/Definition/RoundTrip.antt =====
-- A unit definition is read back from its name and its text.
use rystemd.Prelude.{
  ◌≡◌, refl, ap, ◌∙◌, false, some, ◌∷◌, ◌++◌, All, ok, Text, text_eq, contains_char,
}
use rystemd.Unit.Config.Kinds.{rsplit_once_last}
use rystemd.Repo.Document.Entries.{IsSection}
use rystemd.Repo.Document.RoundTrip.{parse_document-to_text}
use rystemd.Repo.Definition.{
  UnitType, service, timer, target, path, socket, mount, device, type_suffix, type_from_suffix,
  UnitDefinition, type_from_unit_name, defined, parse_definition, definition_text,
}

type_from_suffix-type_suffix : (k : UnitType) → type_from_suffix (type_suffix k) ≡ some k
unfolding type_from_suffix type_suffix text_eq
type_from_suffix-type_suffix service = refl
type_from_suffix-type_suffix timer = refl
type_from_suffix-type_suffix target = refl
type_from_suffix-type_suffix path = refl
type_from_suffix-type_suffix socket = refl
type_from_suffix-type_suffix mount = refl
type_from_suffix-type_suffix device = refl

type_suffix_plain : (k : UnitType) → contains_char b'.' (type_suffix k) ≡ false
unfolding type_suffix
type_suffix_plain service = refl
type_suffix_plain timer = refl
type_suffix_plain target = refl
type_suffix_plain path = refl
type_suffix_plain socket = refl
type_suffix_plain mount = refl
type_suffix_plain device = refl

type_from_unit_name-type_suffix :
    (stem : Text) (k : UnitType) → type_from_unit_name (stem ++ b'.' ∷ type_suffix k) ≡ some k
unfolding type_from_unit_name
type_from_unit_name-type_suffix stem k =
    rw (rsplit_once_last b'.' stem (type_suffix k) (type_suffix_plain k), type_from_unit_name)
      (type_from_suffix-type_suffix k)

-- For each of the seven unit types and every stem, also one with dots: a definition that is named by the
-- stem, a dot and the suffix that the type is written with, and whose document the text form can hold,
-- is read back from its name and its text, with its type.
pub parse_definition-definition_text :
    (d : UnitDefinition) (stem : Text)
    → d.name ≡ stem ++ b'.' ∷ type_suffix d.kind
    → All IsSection d.document.sections
    → parse_definition d.name (definition_text d) ≡ ok d
unfolding parse_definition definition_text
parse_definition-definition_text d stem e v =
    let k = ap type_from_unit_name e ∙ type_from_unit_name-type_suffix stem d.kind in
    rw (k, parse_definition) (ap (defined d.name d.kind) (parse_document-to_text d.document v))
