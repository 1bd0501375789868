-- ===== src/Service/Launch.antt =====
-- The launch of the collector thread and of its storages: `start_demo3_rpmsg_collector` and
-- `init_storage` in OKMX8MM-Demo3/data-collector-demo3/src/bridge/demo3_rpmsg_service.c. The
-- allocation, the creation of the thread, the making of folders and the list of mounts are
-- arguments.
use okmx8mm.Base.{ℕ, zero, suc, ◌+◌, ◌*◌, ◌≡◌, ◌<◌, arith, List, [], ◌∷◌, Bool, true, false, ◌&&◌}
use okmx8mm.Base.{
  not, Option, length, leb, ◌==◌, if◌then◌else◌, Result, ok, err, inl, inr, Result-cases, ℤ, pos,
  failed, ◌>>=◌, codes,
}
use okmx8mm.A53.Check.{contains}
use okmx8mm.Rolling.{check_sdcard_mount}

-- `demo3_rpmsg_service_config_t`, and the members of the same names in
-- `demo3_rpmsg_service_context_t`.
pub record Settings : Type 0 where
  pub device_path : List ℕ
  pub local_storage_path : List ℕ
  pub sd_storage_path : List ℕ
  pub storage_file_name : List ℕ
  pub storage_compress : ℤ
  pub poll_timeout_ms : ℤ
  pub can_enabled : ℤ
  pub can_interface : List ℕ
  pub can_id_base : ℕ
  pub mqtt_enabled : ℤ
  pub mqtt_broker : List ℕ
  pub mqtt_topic : List ℕ
  pub mqtt_client_id : List ℕ
  pub mqtt_port : ℤ
  pub status_enabled : ℤ
  pub status_path : List ℕ
  pub ota_staged : ℤ

abbrev pub service_text_length : ℕ
service_text_length = 128

-- The text that the target holds then.
unfoldable pub copy_text : List ℕ → Result (List ℕ)
copy_text source = if leb service_text_length (length source) then err 1 else ok source

-- The nine copies, in their order, and the members that are assigned.
unfoldable pub copy_texts : Settings → Result Settings
copy_texts config = do
  device_path ← copy_text config.device_path
  local_storage_path ← copy_text config.local_storage_path
  sd_storage_path ← copy_text config.sd_storage_path
  storage_file_name ← copy_text config.storage_file_name
  can_interface ← copy_text config.can_interface
  mqtt_broker ← copy_text config.mqtt_broker
  mqtt_topic ← copy_text config.mqtt_topic
  mqtt_client_id ← copy_text config.mqtt_client_id
  status_path ← copy_text config.status_path
  ok (record config {
    device_path = device_path;
    local_storage_path = local_storage_path;
    sd_storage_path = sd_storage_path;
    storage_file_name = storage_file_name;
    can_interface = can_interface;
    mqtt_broker = mqtt_broker;
    mqtt_topic = mqtt_topic;
    mqtt_client_id = mqtt_client_id;
    status_path = status_path;
  })

-- `start_demo3_rpmsg_collector`: what the thread is given. `given` says that no pointer is null,
-- `allocated` whether `calloc` succeeds, `create` whether `pthread_create`
-- returns 0.
unfoldable pub launch : Bool → Bool → (Settings → Bool) → Settings → Result Settings
launch false allocated create config = err 1
launch true allocated create config =
    if length config.device_path == 0
    then err 1
    else if not allocated
    then err 2
    else elim (copy_texts config) [
      | err n ↦ err 3
      | ok service ↦ if create service then ok service else err 4
    ]

-- The part of `file_storage_config_t` and `file_storage_context_t` that `init_storage` sets and
-- that is not 0, without the descriptor, which is -1. The LED of an error of the storage, which the
-- check of the card sets, is left out.
pub record Storage : Type 0 where
  pub path : List ℕ
  pub file_name : List ℕ
  pub compress : ℤ
  pub rolling_free_space : ℕ
  pub disabled : Bool

-- The configurations of the two storages.
unfoldable pub folder_of : ℕ → Settings → List ℕ
folder_of i service = if i == 0 then service.local_storage_path else service.sd_storage_path

unfoldable pub storage_config : ℕ → Settings → Storage
unfolding folder_of
storage_config i service = record {
  path = folder_of i service;
  file_name = service.storage_file_name;
  compress = if i == 0 then service.storage_compress else pos 0;
  rolling_free_space = if i == 0 then 500 * 1024 * 1024 else 4 * 1024 * 1024 * 1024;
  disabled = false;
}

-- A storage on a card that is not mounted is disabled.
unfoldable pub check_card : Option (List (List ℕ)) → Storage → Storage
check_card mounts storage = record storage {
  disabled = contains (codes "/media/sdcard/") storage.path && failed (check_sdcard_mount mounts).0;
}

module _ {W : Type 0} (mkdirs : List ℕ → W → ℤ × W) (mounts : W → Option (List (List ℕ))) where
  -- The loop, with the rounds left: the storages that are set up, and the world.
  unfoldable pub init_storages : ℕ → ℕ → Settings → W → Result (List Storage) × W
  init_storages zero i service w = (ok [], w)
  init_storages (suc left) i service w =
      let storage = storage_config i service in
      let made = mkdirs storage.path w in
      let rest = init_storages left (i + 1) service made.1 in
      if failed made.0 then (err 1, made.1) else (
        elim rest.0 [
          | err n ↦ err n
          | ok storages ↦ ok (check_card (mounts made.1) storage ∷ storages)
        ],
        rest.1,
      )

  unfoldable pub init_storage : Settings → W → Result (List Storage) × W
  init_storage service w = init_storages 2 0 service w

-- Each text fits its member, with the zero behind it.
unfoldable IsFitting : Settings → Type 0
IsFitting config =
    (length config.device_path < service_text_length)
    × (length config.local_storage_path < service_text_length)
    × (length config.sd_storage_path < service_text_length)
    × (length config.storage_file_name < service_text_length)
    × (length config.can_interface < service_text_length)
    × (length config.mqtt_broker < service_text_length)
    × (length config.mqtt_topic < service_text_length)
    × (length config.mqtt_client_id < service_text_length)
    × (length config.status_path < service_text_length)

-- If the copies succeed, they change nothing, and each text fits its member.
copy_texts_lem :
    (config service : Settings)
    → copy_texts config ≡ ok service
    → (service ≡ config) × IsFitting config
unfolding copy_texts copy_text IsFitting
copy_texts_lem config service h = ground arith

-- If the launch returns 0, the thread is given the settings as they are, the path of the device is
-- not empty, and each text fits its member.
launch_lem :
    (given allocated : Bool) (create : Settings → Bool) (config service : Settings)
    → launch given allocated create config ≡ ok service
    → (service ≡ config) × (0 < length config.device_path) × IsFitting config
unfolding launch
launch_lem given allocated create config service h = elim (Result-cases (copy_texts config)) [
  | inl (copied, e) ↦ let same = copy_texts_lem config copied e in ground arith
  | inr (n, e) ↦ ground arith
]
