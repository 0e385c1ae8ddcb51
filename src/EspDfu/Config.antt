-- ===== src/EspDfu/Config.antt =====
-- server/esp-dfu.c: `get_esp_dfu_config`, which looks the ESP's registers and codes up in the
-- device map. `none` is the return of -1: every missing key ends it.
use Prim.Native.String.{String}
use fcp_support.Base.{ℕ, ◌+◌, ◌%◌, ◌^◌, Option, ℤ, pos, to_unsigned}
use fcp_support.Json.{JsonC, pure, ◌>>=◌}
use fcp_support.EspDfu.{EspConfig}

module _ (lib : JsonC) where
  open lib use {Json, get_ex, get_int}

  -- `get_enum_value`, stored into a uint8.
  unfoldable pub get_enum_value : Json → String → String → Option ℤ
  get_enum_value devmap enum_name value_name = do
    enums ← get_ex devmap "enums"
    enum_obj ← get_ex enums enum_name
    enumerators ← get_ex enum_obj "enumerators"
    enum_value ← get_ex enumerators value_name
    pure (pos (to_unsigned 8 (get_int enum_value)))

  -- The 32-bit pattern of an `int` member, which is what goes out on the wire.
  get_word : Json → String → Option ℕ
  get_word obj key = do value ← get_ex obj key; pure (to_unsigned 32 (get_int value))

  unfoldable pub get_esp_dfu_config : Json → Option EspConfig
  unfolding get_word get_enum_value
  get_esp_dfu_config devmap = do
    state_off ← get_enum_value devmap "eSuperState" "eSuperOff"
    state_dfu ← get_enum_value devmap "eSuperState" "eSuperDFU"
    state_normal ← get_enum_value devmap "eSuperState" "eSuperNormal"
    clear ← get_enum_value devmap "eDFU_NOTIFICATION" "eClear"
    next_block ← get_enum_value devmap "eDFU_NOTIFICATION" "eNextblock"
    finish ← get_enum_value devmap "eDFU_NOTIFICATION" "eFinish"
    error ← get_enum_value devmap "eDFU_NOTIFICATION" "eError"
    enums ← get_ex devmap "enums"
    message_type ← get_ex enums "eDEV_FCP_NOTIFY_MESSAGE_TYPE"
    notify_types ← get_ex message_type "enumerators"
    dfu_change ← get_word notify_types "FCP_NOTIFY_DFU_CHANGE"
    structs ← get_ex devmap "structs"
    app_space ← get_ex structs "APP_SPACE"
    members ← get_ex app_space "members"
    esp_space_member ← get_ex members "espSpace"
    esp_base ← get_word esp_space_member "offset"
    esp_space ← get_ex structs "ESP_SPACE"
    esp_members ← get_ex esp_space "members"
    super_state ← get_ex esp_members "SuperState"
    super_state_offset ← get_word super_state "offset"
    esp_boot_mode ← get_ex members "ESPBootMode"
    boot_mode_offset ← get_word esp_boot_mode "offset"
    boot_mode_notify ← get_word esp_boot_mode "notify-device"
    dfu_notify ← get_ex esp_members "DFU_NOTIFY"
    dfu_notify_offset ← get_word dfu_notify "offset"
    pure (record {
      state_off = state_off;
      state_dfu = state_dfu;
      state_normal = state_normal;
      notify_clear = clear;
      notify_next_block = next_block;
      notify_finish = finish;
      notify_error = error;
      offset_state = (esp_base + super_state_offset) % 2 ^ 32;
      offset_boot_mode = boot_mode_offset;
      offset_dfu_notify = (esp_base + dfu_notify_offset) % 2 ^ 32;
      dfu_change = dfu_change;
      esp_boot_mode = boot_mode_notify;
    })
