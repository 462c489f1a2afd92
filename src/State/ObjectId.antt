-- ===== src/State/ObjectId.antt =====
-- state.IsObjectID and gitrepo's isFullObjectID: a full object id in lower-case hex.
use counterpoint.Prelude.{
  ℕ, Bool, true, false, ◌&&◌, ◌||◌, [], ◌∷◌, length, leb, ◌==◌, if◌then◌else◌,
}
use counterpoint.Prelude.Text.{Bytes}

unfoldable pub is_hex : ℕ → Bool
is_hex c = leb b'0' c && leb c b'9' || leb b'a' c && leb c b'f'

unfoldable pub all_hex : Bytes → Bool
unfolding is_hex
all_hex [] = true
all_hex (c ∷ s) = is_hex c && all_hex s

-- The loop returns at the first byte that is no hex digit.
unfoldable pub is_object_id : Bytes → Bool
unfolding all_hex
is_object_id s = if length s == 40 || length s == 64 then all_hex s else false
