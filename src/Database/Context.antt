-- ===== src/Database/Context.antt =====
-- storage.py: `load_job_context` of a validated payload.
use shadowglass_v35_runtime.Common.{
  ℕ, String, Bool, false, not, ◌&&◌, ◌||◌, Option, none, some, find, ltb, ◌==◌, str_eq, coalesce,
  if◌then◌else◌,
}
use shadowglass_v35_runtime.Common.Int.{ℤ, pos, eq_ℤ}
use shadowglass_v35_runtime.Common.Result.{
  Result, ok, err, value_error, lookup_error, raise_if, ◌>>◌,
}
use shadowglass_v35_runtime.Database.Tables.{County, Instrument, Db}
use shadowglass_v35_runtime.Worker.Payload.{Task}

pub record JobContext : Type 0 where
  pub county_id : ℕ
  pub county : String
  pub base_url : String
  pub platform : String
  pub instrument_type_id : ℕ
  pub instrument_type : String

-- `is_active <> 0`, not true of NULL
abbrev pub is_not_zero : Option ℤ → Bool
is_not_zero none = false
is_not_zero (some n) = not (eq_ℤ n (pos 0))

-- WHERE c.id = %s AND c.is_active <> 0, and WHERE i.id = %s
abbrev pub is_county : ℕ → County → Bool
is_county id c = c.id == id && is_not_zero c.is_active

abbrev pub is_instrument : ℕ → Instrument → Bool
is_instrument id i = i.id == id

-- `casefold` is `str.casefold`, whose Unicode tables are not modelled.
module _ (casefold : String → String) where
  abbrev pub hydrate : Task → County → Instrument → Result JobContext
  hydrate t c i =
      if not (str_eq (casefold t.county) (casefold c.name))
        || not (str_eq (casefold t.instrument_type) (casefold i.name))
      then err value_error "queue context names do not match migrated identities"
      else ok (record {
        county_id = c.id;
        county = c.name;
        base_url = c.base_url;
        platform = coalesce c.platform "";
        instrument_type_id = i.id;
        instrument_type = i.name;
      })

  -- The row of the CROSS JOIN, if there is one.
  abbrev pub joined : Task → Option County → Option Instrument → Result JobContext
  joined t (some c) (some i) = hydrate t c i
  joined t _ _ = err lookup_error "queue context does not identify an active county/instrument"

  unfoldable pub load_job_context : Task → Db → Result JobContext
  load_job_context t db = do
    raise_if (ltb t.county_id 1 || ltb t.instrument_type_id 1) value_error
        "queue payload lacks county or instrument identity"
    joined t (find (is_county t.county_id) db.counties)
        (find (is_instrument t.instrument_type_id) db.instruments)
