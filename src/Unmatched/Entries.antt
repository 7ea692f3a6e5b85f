-- ===== src/Unmatched/Entries.antt =====
-- The entries of a map[string]any, which are set one after another.
use gtv_final_submission.Prelude.{
  String, Option, none, some, ◌==◌, string_eq, text_eq, ◌≡◌, arith, if◌then◌else◌,
}
use gtv_final_submission.Timeline.{Value, Fields, end, field}
use gtv_final_submission.Unmatched.{set_field}

-- The value of a key.
unfoldable pub field_of : String → Fields → Option Value
field_of k end = none
field_of k (field j v fs) = let below = field_of k fs in if j == k then some v else below

pub field_of-set_field :
    (k j : String) (v : Value) (fs : Fields)
    → field_of k (set_field j v fs) ≡ (if j == k then some v else field_of k fs)
unfolding field_of set_field
field_of-set_field k j v end = ground arith
field_of-set_field k j v (field i w fs) =
    ground (arith, field_of-set_field k j v fs, text_eq i k, text_eq j k, text_eq i j)
