-- ===== src/Repo/Document/Tests.antt =====
-- A document with two sections, on which domain.rs is run.
use rystemd.Prelude.{◌≡◌, refl, [], ◌∷◌, codes, ok, trim_start, trim_end}
use rystemd.Repo.Definition.{
  UnitDefinition, service, parse_definition, definition_text, type_suffix,
}
use rystemd.Repo.Definition.RoundTrip.{parse_definition-definition_text}
use rystemd.Repo.Document.{UnitEntry, UnitDocument, parse_document, to_text}
use rystemd.Repo.Document.Entries.{IsSection}
use rystemd.Repo.Document.RoundTrip.{parse_document-to_text}

abbrev description : UnitEntry
description = record { key = codes "Description"; value = codes "a b" }

abbrev empty_value : UnitEntry
empty_value = record { key = codes "ExecStart"; value = [] }

abbrev two_sections : UnitDocument
two_sections = record {
  sections =
      record { name = codes "Unit"; entries = description ∷ [] }
      ∷ record { name = codes "Service"; entries = empty_value ∷ [] }
      ∷ [];
}

to_text-two_sections :
    to_text two_sections ≡ codes "[Unit]\nDescription=a b\n\n[Service]\nExecStart=\n"
unfolding to_text
to_text-two_sections = refl

two_sections-all :
    IsSection (record { name = codes "Unit"; entries = description ∷ [] })
    × IsSection (record { name = codes "Service"; entries = empty_value ∷ [] })
unfolding trim_start trim_end
two_sections-all = (
  record {
    has_name = refl;
    name_trimmed = record { front = refl; back = refl };
    name_plain = refl;
    name_line = refl;
    all_entries = (
      record {
        has_key = refl;
        key_chars = refl;
        value_trimmed = record { front = refl; back = refl };
        value_line = refl;
      },
      tt,
    );
  },
  record {
    has_name = refl;
    name_trimmed = record { front = refl; back = refl };
    name_plain = refl;
    name_line = refl;
    all_entries = (
      record {
        has_key = refl;
        key_chars = refl;
        value_trimmed = record { front = refl; back = refl };
        value_line = refl;
      },
      tt,
    );
  },
)

parse_document-to_text_example : parse_document (to_text two_sections) ≡ ok two_sections
parse_document-to_text_example =
    parse_document-to_text two_sections (two_sections-all.0, (two_sections-all.1, tt))

abbrev demo : UnitDefinition
demo = record { name = codes "demo.service"; kind = service; document = two_sections }

parse_definition-definition_text_example :
    parse_definition demo.name (definition_text demo) ≡ ok demo
unfolding type_suffix
parse_definition-definition_text_example =
    parse_definition-definition_text demo (codes "demo") refl
      (two_sections-all.0, (two_sections-all.1, tt))
