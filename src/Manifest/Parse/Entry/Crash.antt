-- ===== src/Manifest/Parse/Entry/Crash.antt =====
-- When `parse_resource` uses a NULL pointer, or gives one to the text of a message.
use elfrc.Base.{◌≢◌, Option, none, some}
use elfrc.Manifest.Yaml.{Node, Document, map_get}
use elfrc.Manifest.Yaml.Keys
use elfrc.Manifest.Parse.{ParseError, Draft}
use elfrc.Manifest.Parse.Entry.{Defaults}
use elfrc.Manifest.Parse.Entry.Printable.{IsText, IsPrintable}

-- The defaults are no NULL pointers.
pub record HasTexts (defs : Defaults) : Type 0 where
  pub language : defs.language ≢ none
  pub compression : defs.compression ≢ none
  pub encryption : defs.encryption ≢ none

-- Each of these fields is missing or a scalar.
pub record IsTextual (doc : Document) (entry : Node) : Type 0 where
  pub name : IsText (map_get doc (some entry) Keys.name)
  pub file : IsText (map_get doc (some entry) Keys.file)
  pub type : IsText (map_get doc (some entry) Keys.type)
  pub id : IsText (map_get doc (some entry) Keys.id)
  pub compression : IsText (map_get doc (some entry) Keys.compression)
  pub encryption : IsText (map_get doc (some entry) Keys.encryption)

-- The error can be printed.
abbrev CanReport : Draft → Type 0
CanReport d = IsPrintable d.error

abbrev pub CanReturn : Option ParseError × Option Draft → Type 0
CanReturn (error, d) = IsPrintable error
