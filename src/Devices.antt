-- ===== src/Devices.antt =====
-- src/marmot/device-store.ts, src/marmot/forgotten-slots.ts and src/marmot/probe-gate.ts: what is kept
-- about devices and groups. `Date.now()` is an argument. The order by `localeCompare` and `trim` are
-- the platform's and are parameters.
use notestr.Prelude.{
  ℕ, ◌+◌, ◌*◌, Text, lit, Bool, true, false, not, Option, none, some, List, [], ◌∷◌, ◌++◌, map,
  keep, same, leb, ◌==◌, ◌&&◌, if◌then◌else◌,
}
use notestr.Prelude.Dict.{Dict, get, has, set, delete}
use notestr.Domain.Events.{or_else}
use notestr.Persistence.{is_empty}
use notestr.Outbox.Bridge.{take}

pub record DeviceMetadata : Type 0 where
  pub client_id : Text
  pub name : Text
  pub first_seen : ℕ
  pub last_seen : ℕ

-- The stores; the value of a key that is only a mark is `tt`.
pub record DeviceStores : Type 0 where
  pub device_names : Dict DeviceMetadata
  pub invited_keys : Dict (Unit {0})
  pub joined_groups : Dict (Unit {0})
  pub bootstrap_completed : Dict (Unit {0})
  pub forgotten_slots : Dict (Unit {0})
  -- How often a change of the forgotten slots was announced.
  pub announced : ℕ

abbrev pub is_client : Text → Option Text → Bool
is_client client_id none = false
is_client client_id (some local) = not (is_empty local) && same client_id local

unfoldable pub default_device_name : (client_id : Text) → (local_client_id : Option Text) → Text
default_device_name client_id local_client_id =
    if is_client client_id local_client_id
    then lit "this browser"
    else lit "device-" ++ take 6 client_id

abbrev pub or_default : Text → Text → Text
or_default name fallback = if is_empty name then fallback else name

abbrev pub get_device_metadata : Text → DeviceStores → Option DeviceMetadata
get_device_metadata client_id d = get client_id d.device_names

abbrev pub put_device : DeviceMetadata → DeviceStores → DeviceStores
put_device device d = record d { device_names = set device.client_id device d.device_names }

module _ (trim : Text → Text) where
  -- The entry that `markDeviceSeen` writes and returns.
  unfoldable pub seen_device :
      (client_id : Text)
      → (local_client_id fallback_name : Option Text) → (timestamp : ℕ) → Option DeviceMetadata
      → DeviceMetadata
  seen_device client_id local_client_id fallback_name timestamp (some existing) = record existing {
    last_seen = timestamp;
  }
  seen_device client_id local_client_id fallback_name timestamp none = record {
    client_id = client_id;
    name =
        or_default (trim (or_else fallback_name []))
          (default_device_name client_id local_client_id);
    first_seen = timestamp;
    last_seen = timestamp;
  }

  unfoldable pub mark_device_seen :
      (client_id : Text)
      → (local_client_id fallback_name : Option Text) → (timestamp : ℕ) → DeviceStores
      → DeviceMetadata × DeviceStores
  mark_device_seen client_id local_client_id fallback_name timestamp d =
      let device =
        seen_device client_id local_client_id fallback_name timestamp
          (get_device_metadata client_id d) in
      (device, record d { device_names = set client_id device d.device_names })

  unfoldable pub set_device_name :
      (client_id name : Text) → (timestamp : ℕ) → DeviceStores → DeviceStores
  set_device_name client_id name timestamp d =
      put_device
        (record {
          client_id = client_id;
          name = or_default (trim name) (default_device_name client_id none);
          first_seen = elim (get_device_metadata client_id d) [
            | none ↦ timestamp
            | some existing ↦ existing.first_seen
          ];
          last_seen = timestamp;
        })
        d

unfoldable pub get_device_name :
    (client_id : Text) → (local_client_id : Option Text) → DeviceStores → Text
get_device_name client_id local_client_id d = elim (get_device_metadata client_id d) [
  | none ↦ default_device_name client_id local_client_id
  | some existing ↦ existing.name
]

module _ (compare_names : Text → Text → Bool) where
  unfoldable pub insert_by_name : DeviceMetadata → List DeviceMetadata → List DeviceMetadata
  insert_by_name x [] = x ∷ []
  insert_by_name x (y ∷ ys) =
      if compare_names x.name y.name then x ∷ y ∷ ys else y ∷ insert_by_name x ys

  unfoldable pub sort_by_name : List DeviceMetadata → List DeviceMetadata
  sort_by_name [] = []
  sort_by_name (x ∷ xs) = insert_by_name x (sort_by_name xs)

  unfoldable pub list_devices : DeviceStores → List DeviceMetadata
  list_devices d = sort_by_name (map (λ e. e.1) d.device_names)

unfoldable pub load_invited_keys : DeviceStores → List Text
load_invited_keys d = map (λ e. e.0) d.invited_keys

unfoldable pub persist_invited_key : Text → DeviceStores → DeviceStores
persist_invited_key key d = record d { invited_keys = set key tt d.invited_keys }

unfoldable pub starts_with : Text → Text → Bool
starts_with [] text = true
starts_with (p ∷ prefix) [] = false
starts_with (p ∷ prefix) (c ∷ text) = (p == c) && starts_with prefix text

unfoldable pub clear_invited_keys_for_group : Text → DeviceStores → DeviceStores
clear_invited_keys_for_group group_id d = record d {
  invited_keys = keep (λ e. not (starts_with (group_id ++ lit ":") e.0)) d.invited_keys;
}

unfoldable pub mark_group_joined_from_welcome : Text → DeviceStores → DeviceStores
mark_group_joined_from_welcome group_id d = record d {
  joined_groups = set group_id tt d.joined_groups;
}

unfoldable pub is_group_joined_from_welcome : Text → DeviceStores → Bool
is_group_joined_from_welcome group_id d = has group_id d.joined_groups

unfoldable pub forget_joined_group : Text → DeviceStores → DeviceStores
forget_joined_group group_id d = record d { joined_groups = delete group_id d.joined_groups }

unfoldable pub mark_bootstrap_completed : Text → DeviceStores → DeviceStores
mark_bootstrap_completed group_id d = record d {
  bootstrap_completed = set group_id tt d.bootstrap_completed;
}

unfoldable pub is_bootstrap_completed : Text → DeviceStores → Bool
is_bootstrap_completed group_id d = has group_id d.bootstrap_completed

unfoldable pub forget_bootstrap_completed : Text → DeviceStores → DeviceStores
forget_bootstrap_completed group_id d = record d {
  bootstrap_completed = delete group_id d.bootstrap_completed;
}

unfoldable pub mark_slot_forgotten : Text → DeviceStores → DeviceStores
mark_slot_forgotten slot d = record d {
  forgotten_slots = set slot tt d.forgotten_slots;
  announced = d.announced + 1;
}

unfoldable pub load_forgotten_slots : DeviceStores → List Text
load_forgotten_slots d = map (λ e. e.0) d.forgotten_slots

-- `PROBE_INTERVAL_MS`.
abbrev pub probe_interval_ms : ℕ
probe_interval_ms = 24 * 60 * 60 * 1000

unfoldable pub should_run_probe : (last_probe_at_ms : Option ℕ) → (now : ℕ) → Bool
should_run_probe none now = true
should_run_probe (some last) now = leb (last + probe_interval_ms) now
