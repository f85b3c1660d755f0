-- ===== src/Channel/Replay.antt =====
-- The replay guard of channel/src/auth.rs. The `HashSet` is a list without order, the `VecDeque` a
-- list whose head is its front.
pub mod Window
pub mod Refusal
pub mod Refines
mod Runs
use signet_drive.Base.{
  ℕ, max, Bool, true, false, ◌||◌, Bytes, List, [], ◌∷◌, ◌++◌, length, leb, bytes_eq,
}
use signet_drive.Base.{if◌then◌else◌}
use signet_drive.Base.Results.{Result, ok, err}
use signet_drive.Channel.{ChannelError, replay}

pub record ReplayGuard : Type 0 where
  pub seen : List Bytes
  pub order : List Bytes
  pub capacity : ℕ

unfoldable pub new : ℕ → ReplayGuard
new capacity = record { seen = []; order = []; capacity = max capacity 1 }

unfoldable pub with_default_capacity : ReplayGuard
unfolding new
with_default_capacity = new 4096

-- `HashSet::contains`.
unfoldable pub contains : Bytes → List Bytes → Bool
contains nonce [] = false
contains nonce (x ∷ set) = bytes_eq x nonce || contains nonce set

-- `HashSet::remove`.
pub remove : Bytes → List Bytes → List Bytes
remove nonce [] = []
remove nonce (x ∷ set) = let rest = remove nonce set in if bytes_eq x nonce then rest else x ∷ rest

-- `order.pop_front()`, with the removal of what it returned.
evict : ReplayGuard → List Bytes → ReplayGuard
evict g [] = g
evict g (evicted ∷ order) = record g { seen = remove evicted g.seen; order = order }

-- `if order.len() >= capacity && let Some(evicted) = order.pop_front() { seen.remove(&evicted); }`
make_room : ReplayGuard → ReplayGuard
unfolding evict
make_room g = if leb g.capacity (length g.order) then evict g g.order else g

-- The guard after the call, and its result.
unfoldable pub check_and_record : ReplayGuard → Bytes → ReplayGuard × Result ChannelError (Unit {0})
unfolding make_room
check_and_record g nonce =
    if contains nonce g.seen
    then (g, err replay)
    else let room = make_room g in
      (record room { seen = nonce ∷ room.seen; order = room.order ++ (nonce ∷ []) }, ok tt)
