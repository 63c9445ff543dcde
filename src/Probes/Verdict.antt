-- ===== src/Probes/Verdict.antt =====
-- src/picket/conditions/probes.py: `_parse_verdict`.
use picket_mcp.Prelude.{
  Text, codes, text_eq, Bool, true, false, not, ◌||◌, Option, none, some, List, [], ◌∷◌, ◌++◌,
  if◌then◌else◌, select,
}
use picket_mcp.Core.Json.{Json, null, text, object, Fields, end, get_field}
use picket_mcp.Condition.Extract.{Observed, ok, observe_error}
use picket_mcp.Probes.Types.{ProbeResult, ProbeWorld}

abbrev pub is_blank : Text → Bool
is_blank [] = true
is_blank (c ∷ s) = false

-- xs[-1]
unfoldable pub last_line : List Text → Option Text
last_line [] = none
last_line (x ∷ []) = some x
last_line (x ∷ y ∷ xs) = last_line (y ∷ xs)

-- s in ("", "false", "0", "no")
unfoldable pub is_falsy_word : Text → Bool
unfolding text_eq
is_falsy_word s =
    is_blank s || text_eq s (codes "false") || text_eq s (codes "0") || text_eq s (codes "no")

abbrev pub json_or_null : {N : Type 0} → Option (Json N) → Json N
json_or_null none = null
json_or_null (some v) = v

module _ {N : Type 0} (world : ProbeWorld N) where
  -- The line holds more than white space.
  abbrev pub has_text : Text → Bool
  has_text line = not (is_blank (world.base.strip line))

  unfoldable pub fire_of : Option (Json N) → Bool
  unfolding is_falsy_word
  fire_of none = false
  fire_of (some (text s)) = not (is_falsy_word (world.lower (world.base.strip s)))
  fire_of (some v) = world.base.truth v

  abbrev no_payload : Observed (Fields N)
  no_payload = observe_error (codes "probe 'payload' must be a JSON object")

  -- verdict.get("payload") or {}
  unfoldable pub payload_of : Option (Json N) → Observed (Fields N)
  payload_of none = ok end
  payload_of (some (object fs)) = ok fs
  payload_of (some v) = if world.base.truth v then no_payload else ok end

  abbrev with_payload : Fields N → Observed (Fields N) → Observed (ProbeResult N)
  with_payload verdict (ok payload) = ok (record {
    fire = fire_of (get_field (codes "fire") verdict);
    value = json_or_null (get_field (codes "value") verdict);
    payload = payload;
  })
  with_payload verdict (observe_error e) = observe_error e
  with_payload verdict Observed.crash = Observed.crash

  unfoldable pub verdict_of : Text → Option (Json N) → Observed (ProbeResult N)
  unfolding fire_of payload_of get_field
  verdict_of line none =
      observe_error (codes "probe stdout is not JSON: " ++ world.decode_error line)
  verdict_of line (some (object verdict)) =
      with_payload verdict (payload_of (get_field (codes "payload") verdict))
  verdict_of line (some v) = observe_error (codes "probe stdout must be a JSON object")

  unfoldable pub parse_line : Option Text → Observed (ProbeResult N)
  unfolding verdict_of
  parse_line none = observe_error (codes "probe produced no output")
  parse_line (some line) = verdict_of line (world.base.loads line)

  unfoldable pub parse_verdict : Text → Observed (ProbeResult N)
  unfolding last_line parse_line
  parse_verdict stdout = parse_line (last_line (select has_text (world.lines stdout)))
