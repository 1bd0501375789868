-- ===== src/Tests/Service.antt =====
-- Tests of the collector.
use okmx8mm.Base.{ℕ, zero, suc, ◌≡◌, ◌+◌, ◌++◌, refl, [], true, codes}
use okmx8mm.Base.{pos, minus, u32, some, ok, err, false, replicate, ◌∷◌}
use okmx8mm.Rpmsg.{encode}
use okmx8mm.Rpmsg.Bridge.{Read}
use okmx8mm.A53.Check.{contains}
use okmx8mm.Rolling.{check_sdcard_mount, finds_card}
use okmx8mm.Runtime
use okmx8mm.Service.{Outputs, Service, collect, collect_rounds, store_all}
use okmx8mm.Service.Accounting.{IsAccounted}
use okmx8mm.Service.Launch.{
  Settings, launch, copy_text, copy_texts, init_storage, init_storages, storage_config, folder_of,
  check_card,
}
use okmx8mm.Service.Start.{Startup, start}
use okmx8mm.Service.Rounds.{collector-IsAccounted, storage_error-invalid}
use okmx8mm.Tests.Data.{reading, reading-IsSample}

-- Storage 0 is full; the world counts the calls.
abbrev outputs : Outputs ℕ
outputs = record {
  store = λ i s w. (elim i [ zero ↦ minus 1 | suc n ↦ pos 0 ], w + 1);
  can_send = λ s w. (pos 0, w + 1);
  mqtt_send = λ s w. (minus 1, w + 1);
  mqtt_close = λ w. w + 1;
  write_status = λ status w. w + 1;
}

abbrev startup : Startup ℕ
startup = record {
  open_device = λ w. (pos 0, w + 1);
  close_device = λ w. w + 1;
  init_storage = λ w. (pos 0, w + 1);
  open_can = λ w. (minus 2, w + 1);
  open_mqtt = λ w. (pos 0, w + 1);
}

abbrev idle : Service ℕ
idle = record {
  status = Runtime.init;
  can_enabled = true;
  mqtt_enabled = true;
  status_enabled = true;
  world = 0;
}

-- A device that returns the frame of the sample each time.
abbrev repeater : Read ℕ
repeater n size = (pos 63, encode reading ++ [], n + 1)

collector-IsAccounted_example :
    IsAccounted (collect_rounds outputs repeater 3 (0, (start outputs startup true idle).service)).1
collector-IsAccounted_example = collector-IsAccounted outputs repeater startup 3 true 0 idle

storage_error-invalid_example :
    let status = (collect outputs repeater (0, idle)).1.status in
    (status.invalid_frames ≡ u32 (idle.status.invalid_frames + 1))
    × (status.last_error ≡ codes "rpmsg_frame_error")
unfolding store_all
storage_error-invalid_example =
    storage_error-invalid outputs repeater 0 1 idle reading [] reading-IsSample refl refl

abbrev settings : Settings
settings = record {
  device_path = codes "/dev/rpmsg0";
  local_storage_path = codes "/data/";
  sd_storage_path = codes "/media/sdcard/data/";
  storage_file_name = codes "sample";
  storage_compress = pos 1;
  poll_timeout_ms = pos 100;
  can_enabled = pos 0;
  can_interface = codes "can0";
  can_id_base = 0x300;
  mqtt_enabled = pos 0;
  mqtt_broker = codes "broker";
  mqtt_topic = codes "demo3";
  mqtt_client_id = codes "gateway";
  mqtt_port = pos 1883;
  status_enabled = pos 1;
  status_path = codes "/run/status.json";
  ota_staged = pos 0;
}

launched_as_given : launch true true (λ s. true) settings ≡ ok settings
unfolding launch copy_texts copy_text
launched_as_given = refl

-- A text of 127 bytes fits, one of 128 does not.
long_text_refused :
    (launch true true (λ s. true) (record settings { mqtt_topic = replicate 127 97 })
      ≡ ok (record settings { mqtt_topic = replicate 127 97 }))
    × (launch true true (λ s. true) (record settings { mqtt_topic = replicate 128 97 }) ≡ err 3)
unfolding launch copy_texts copy_text
long_text_refused = (refl, refl)

-- Without a mount of the card the second storage is disabled.
card_missing :
    init_storage (λ path w. (pos 0, w + 1)) (λ w. some (codes "/dev/root / ext4" ∷ [])) settings 0
    ≡ (
      ok (
          record {
            path = codes "/data/";
            file_name = codes "sample";
            compress = pos 1;
            rolling_free_space = 524288000;
            disabled = false;
          }
          ∷ record {
            path = codes "/media/sdcard/data/";
            file_name = codes "sample";
            compress = pos 0;
            rolling_free_space = 4294967296;
            disabled = true;
          }
          ∷ []),
      2,
    )
unfolding init_storage init_storages storage_config folder_of check_card check_sdcard_mount
    finds_card contains
card_missing = refl
