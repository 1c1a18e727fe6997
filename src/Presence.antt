-- ===== src/Presence.antt =====
-- src/presence.rs: whether the person is using this computer, from idle times in milliseconds.
pub mod Laws
mod Tests
use studio_worker.Base.{
  ℕ, String, Bool, true, false, not, ◌&&◌, Option, none, some, leb, same, if◌then◌else◌,
}

-- In milliseconds.
abbrev pub idle_after : ℕ
idle_after = 120000

pub data UserPresence : Type 0 where
  idle active : UserPresence

unfoldable pub classify : ℕ → UserPresence
classify t = if leb idle_after t then idle else active

-- The derived `==`.
unfoldable pub same_presence : UserPresence → UserPresence → Bool
same_presence idle idle = true
same_presence active active = true
same_presence idle active = false
same_presence active idle = false

unfoldable pub is_presence : Option UserPresence → UserPresence → Bool
unfolding same_presence
is_presence none p = false
is_presence (some q) p = same_presence q p

unfoldable pub holds_back : Bool → Option UserPresence → Bool
unfolding is_presence
holds_back only_when_idle presence = only_when_idle && not (is_presence presence idle)

pub data ProbeError : Type 0 where
  unsupported : ProbeError
  -- The source's name and the detail.
  failed : String → String → ProbeError

unfoldable pub same_error : ProbeError → ProbeError → Bool
same_error unsupported unsupported = true
same_error (failed s d) (failed t e) = same s t && same d e
same_error unsupported (failed t e) = false
same_error (failed s d) unsupported = false

unfoldable pub is_error : Option ProbeError → ProbeError → Bool
unfolding same_error
is_error none e = false
is_error (some f) e = same_error f e

-- `Result<Duration, ProbeError>`.
pub data Sample : Type 0 where
  measured : ℕ → Sample
  probe_failed : ProbeError → Sample

-- What `record` logs: that presence is readable again, that it changed, that it is unknown.
pub record Logged : Type 0 where
  pub readable_again : Bool
  pub changed : Bool
  pub unknown : Bool

-- The slot, and the tracker's last error.
pub record Monitor : Type 0 where
  pub slot : Option UserPresence
  pub last_error : Option ProbeError

is_some : Option ProbeError → Bool
is_some (some _) = true
is_some none = false

-- `Tracker::record`.
unfoldable pub note : Sample → Monitor → Monitor × Logged
unfolding is_some classify is_presence is_error
note (measured t) w = (
  record { slot = some (classify t); last_error = none },
  record {
    readable_again = is_some w.last_error;
    changed = not (is_presence w.slot (classify t));
    unknown = false;
  },
)
note (probe_failed e) w = (
  record { slot = none; last_error = if is_error w.last_error e then w.last_error else some e },
  record { readable_again = false; changed = false; unknown = not (is_error w.last_error e) },
)
