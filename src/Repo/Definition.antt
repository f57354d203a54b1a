-- ===== src/Repo/Definition.antt =====
-- rystemd/src/repo/domain.rs: unit types and unit definitions.
pub mod RoundTrip
use rystemd.Prelude.{
  Bool, true, false, Option, none, some, List, [], ◌∷◌, ◌++◌, if◌then◌else◌, Text, text_eq, codes,
  rsplit_once, Result, ok, err,
}
use rystemd.Repo.Document.{RepoError, invalid_name, UnitDocument, parse_document, to_text, quoted}

pub data UnitType : Type 0 where
  service timer target path socket mount device : UnitType

unfoldable pub type_suffix : UnitType → Text
type_suffix service = codes "service"
type_suffix timer = codes "timer"
type_suffix target = codes "target"
type_suffix path = codes "path"
type_suffix socket = codes "socket"
type_suffix mount = codes "mount"
type_suffix device = codes "device"

unfoldable pub type_from_suffix : Text → Option UnitType
type_from_suffix value =
    if text_eq value (codes "service")
    then some service
    else if text_eq value (codes "timer")
    then some timer
    else if text_eq value (codes "target")
    then some target
    else if text_eq value (codes "path")
    then some path
    else if text_eq value (codes "socket")
    then some socket
    else if text_eq value (codes "mount")
    then some mount
    else if text_eq value (codes "device")
    then some device
    else none

unfoldable pub type_from_unit_name : Text → Option UnitType
unfolding type_from_suffix
type_from_unit_name name = elim (rsplit_once b'.' name) [
  | none ↦ none
  | some (_, rest) ↦ type_from_suffix rest
]

pub record UnitDefinition : Type 0 where
  pub name : Text
  pub kind : UnitType
  pub document : UnitDocument

abbrev defined : Text → UnitType → Result UnitDocument RepoError → Result UnitDefinition RepoError
defined name kind (ok d) = ok (record { name = name; kind = kind; document = d })
defined name kind (err e) = err e

unfoldable pub parse_definition : Text → Text → Result UnitDefinition RepoError
unfolding parse_document type_from_unit_name
parse_definition name text = elim (type_from_unit_name name) [
  | none ↦
      err (invalid_name (quoted (codes "unit name ") name (codes " has no recognized unit suffix")))
  | some kind ↦ defined name kind (parse_document text)
]

unfoldable pub definition_text : UnitDefinition → Text
unfolding to_text
definition_text d = to_text d.document
