-- ===== src/Parse/Keys.antt =====
-- The keys by which operations on one channel find one another.
use Prim.Native.String.{◌++◌}
use gtv_final_submission.Prelude.Int.{ℤ, pos, negsuc, leb_ℤ}
use gtv_final_submission.Prelude.Text.{to_lower, split_first, has_suffix, drop_last, atoi, show_ℤ}
use gtv_final_submission.Prelude.{String, Option, none, some, not, ◌==◌, string_eq, if◌then◌else◌}
use gtv_final_submission.Parse.State.{ChKey}

abbrev indexed : String → String → Option ℤ → ChKey
indexed s base none = record { name = s; client_id = negsuc 0 }
indexed s base (some n) = record { name = base; client_id = n }

abbrev split_index : String → Option (String × String) → ChKey
split_index s none = record { name = s; client_id = negsuc 0 }
split_index s (some (base, behind)) =
    if has_suffix s "]"
    then indexed s base (atoi (drop_last behind))
    else record { name = s; client_id = negsuc 0 }

-- "clientout[1]" is the channel of client 1.
unfoldable pub parse_ch_key : String → ChKey
parse_ch_key ch = let s = to_lower ch in split_index s (split_first s "[")

abbrev pub with_client : ChKey → String
with_client ck =
    if leb_ℤ (pos 0) ck.client_id then ck.name ++ "[" ++ show_ℤ ck.client_id ++ "]" else ck.name

unfoldable pub channel_key : ChKey → String → String
channel_key ck ptr = if not (ptr == "") then ptr else with_client ck

abbrev pub op_key : ChKey → String → String
op_key = channel_key
