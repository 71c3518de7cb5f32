-- ===== src/Queue/Text.antt =====
-- The pattern `^[a-z0-9][a-z0-9-]{0,62}$` of a worker's host identifier.
use ryvix.Common.{ℕ, Bool, false, ◌&&◌, ◌||◌, List, [], ◌∷◌, leb, ◌==◌, all, length}

unfoldable pub is_alnum : ℕ → Bool
is_alnum c = (leb b'a' c && leb c b'z') || (leb b'0' c && leb c b'9')

unfoldable pub is_host_id : List ℕ → Bool
unfolding is_alnum
is_host_id [] = false
is_host_id (c ∷ cs) = is_alnum c && all (λ d. is_alnum d || d == b'-') cs && leb (length cs) 62
