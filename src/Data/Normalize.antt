-- ===== src/Data/Normalize.antt =====
-- `normalize_record` and `normalize_file_metadata` of core/data/normalize.py, of an object. A copy of
-- `metadata` is the same object.
use core_host.Base.{◌≡◌, refl, [], ◌∷◌}
use core_host.Base.Dict.{Dict, lookup}
use core_host.Base.Decimal.{pos}
use core_host.Data.Values.{Value, null, boolean, integer, text, real, list, object, get_or}

-- `dict(metadata) if isinstance(metadata, dict) else {}`; the empty object has the identity 0.
abbrev pub object_or_empty : Value → Value
object_or_empty (object n) = object n
object_or_empty _ = object 0

unfoldable pub normalize_record : Dict Value → Dict Value
normalize_record d =
    ("id", get_or "id" null d)
    ∷ ("namespace", get_or "namespace" null d)
    ∷ ("key", get_or "key" null d)
    ∷ ("value", get_or "value" null d)
    ∷ ("metadata", object_or_empty (get_or "metadata" null d))
    ∷ ("owner", get_or "owner" null d)
    ∷ ("version", get_or "version" null d)
    ∷ ("etag", get_or "etag" null d)
    ∷ ("created_at", get_or "created_at" null d)
    ∷ ("updated_at", get_or "updated_at" null d)
    ∷ []

unfoldable pub normalize_file_metadata : Dict Value → Dict Value
normalize_file_metadata d =
    ("id", get_or "id" null d)
    ∷ ("filename", get_or "filename" null d)
    ∷ ("mime_type", get_or "mime_type" null d)
    ∷ ("size", get_or "size" (integer (pos 0)) d)
    ∷ ("sha256", get_or "sha256" null d)
    ∷ ("etag", get_or "etag" null d)
    ∷ ("created_at", get_or "created_at" null d)
    ∷ ("updated_at", get_or "updated_at" null d)
    ∷ []

object_or_empty_idem : (v : Value) → object_or_empty (object_or_empty v) ≡ object_or_empty v
object_or_empty_idem null = refl
object_or_empty_idem (boolean b) = refl
object_or_empty_idem (integer n) = refl
object_or_empty_idem (text s) = refl
object_or_empty_idem (real n) = refl
object_or_empty_idem (list n) = refl
object_or_empty_idem (object n) = refl

-- A record and a file entry that are normalized already are left as they are.
pub normalize_idem :
    (d : Dict Value)
    → (normalize_record (normalize_record d) ≡ normalize_record d)
      × (normalize_file_metadata (normalize_file_metadata d) ≡ normalize_file_metadata d)
unfolding normalize_record normalize_file_metadata get_or lookup
normalize_idem d = (rw (object_or_empty_idem (get_or "metadata" null d)) refl, refl)
