-- ===== src/Tests/Json.antt =====
-- A concrete text of the capabilities and of the firmware attributes, in place of serde's.
use legion_linux_toolkit_rus.Prelude.{ℕ, String, Bool, Option, List, refl}
use legion_linux_toolkit_rus.Prelude.Result.{ok}
use legion_linux_toolkit_rus.Hw.Detect.{Capabilities}
use legion_linux_toolkit_rus.Hw.FirmwareAttrs.{AttrInfo}
use legion_linux_toolkit_rus.Bus.{Json, IsJson}
use legion_linux_toolkit_rus.Tests.Codec.{
  Codec, bool, nat, text, option, list, pair, kept_as, whole,
}

abbrev AttrFields : Type 0
AttrFields = String × (String × (ℕ × (ℕ × (ℕ × (ℕ × (ℕ))))))

abbrev attr_to : AttrInfo → AttrFields
attr_to a = (a.key, (a.display_name, (a.current, (a.default, (a.min, (a.max, a.step))))))

abbrev attr_from : AttrFields → AttrInfo
attr_from p = record {
  key = p.0;
  display_name = p.1.0;
  current = p.1.1.0;
  default = p.1.1.1.0;
  min = p.1.1.1.1.0;
  max = p.1.1.1.1.1.0;
  step = p.1.1.1.1.1.1;
}

attr : Codec AttrInfo
attr =
    kept_as (pair text (pair text (pair nat (pair nat (pair nat (pair nat (nat))))))) attr_to
      attr_from (λ b. refl)

abbrev CapsFields : Type 0
CapsFields =
    Option String
    × (Option String
        × (Option String
            × (Bool
                × (Bool
                    × (Option String
                        × (List String
                            × (Bool
                                × (List String
                                    × (Bool
                                        × (Bool
                                            × (List String
                                                × (Bool
                                                    × (Bool
                                                        × (Bool
                                                            × (Bool
                                                            × (Bool
                                                            × (Bool
                                                            × (Bool
                                                            × (Bool
                                                            × (Option ℕ
                                                            × (Bool
                                                            × (Bool × (Bool)))))))))))))))))))))))

abbrev caps_to : Capabilities → CapsFields
caps_to a = (
  a.product_family,
  (
    a.product_name,
    (
      a.board_name,
      (
        a.is_legion,
        (
          a.platform_profile,
          (
            a.platform_profile_driver,
            (
              a.profile_choices,
              (
                a.firmware_attrs,
                (
                  a.firmware_attr_names,
                  (
                    a.ppt,
                    (
                      a.charge_types,
                      (
                        a.charge_type_choices,
                        (
                          a.battery,
                          (
                            a.ac_adapter,
                            (
                              a.fn_lock,
                              (
                                a.camera_power,
                                (
                                  a.usb_charging,
                                  (
                                    a.conservation_mode,
                                    (
                                      a.fan_mode,
                                      (
                                        a.kbd_backlight,
                                        (
                                          a.kbd_backlight_max,
                                          (a.cpu_boost, (a.cpu_temp, a.fan_rpm)),
                                        ),
                                      ),
                                    ),
                                  ),
                                ),
                              ),
                            ),
                          ),
                        ),
                      ),
                    ),
                  ),
                ),
              ),
            ),
          ),
        ),
      ),
    ),
  ),
)

abbrev caps_from : CapsFields → Capabilities
caps_from p = record {
  product_family = p.0;
  product_name = p.1.0;
  board_name = p.1.1.0;
  is_legion = p.1.1.1.0;
  platform_profile = p.1.1.1.1.0;
  platform_profile_driver = p.1.1.1.1.1.0;
  profile_choices = p.1.1.1.1.1.1.0;
  firmware_attrs = p.1.1.1.1.1.1.1.0;
  firmware_attr_names = p.1.1.1.1.1.1.1.1.0;
  ppt = p.1.1.1.1.1.1.1.1.1.0;
  charge_types = p.1.1.1.1.1.1.1.1.1.1.0;
  charge_type_choices = p.1.1.1.1.1.1.1.1.1.1.1.0;
  battery = p.1.1.1.1.1.1.1.1.1.1.1.1.0;
  ac_adapter = p.1.1.1.1.1.1.1.1.1.1.1.1.1.0;
  fn_lock = p.1.1.1.1.1.1.1.1.1.1.1.1.1.1.0;
  camera_power = p.1.1.1.1.1.1.1.1.1.1.1.1.1.1.1.0;
  usb_charging = p.1.1.1.1.1.1.1.1.1.1.1.1.1.1.1.1.0;
  conservation_mode = p.1.1.1.1.1.1.1.1.1.1.1.1.1.1.1.1.1.0;
  fan_mode = p.1.1.1.1.1.1.1.1.1.1.1.1.1.1.1.1.1.1.0;
  kbd_backlight = p.1.1.1.1.1.1.1.1.1.1.1.1.1.1.1.1.1.1.1.0;
  kbd_backlight_max = p.1.1.1.1.1.1.1.1.1.1.1.1.1.1.1.1.1.1.1.1.0;
  cpu_boost = p.1.1.1.1.1.1.1.1.1.1.1.1.1.1.1.1.1.1.1.1.1.0;
  cpu_temp = p.1.1.1.1.1.1.1.1.1.1.1.1.1.1.1.1.1.1.1.1.1.1.0;
  fan_rpm = p.1.1.1.1.1.1.1.1.1.1.1.1.1.1.1.1.1.1.1.1.1.1.1;
}

caps : Codec Capabilities
caps =
    kept_as
      (pair (option text) (
        pair (option text) (
          pair (option text) (
            pair bool (
              pair bool (
                pair (option text) (
                  pair (list text) (
                    pair bool (
                      pair (list text) (
                        pair bool (
                          pair bool (
                            pair (list text) (
                              pair bool (
                                pair bool (
                                  pair bool (
                                    pair bool (
                                      pair bool (
                                        pair bool (
                                          pair bool (
                                            pair bool (
                                              pair (option nat)
                                                (pair bool (pair bool (bool))))))))))))))))))))))))
      caps_to caps_from (λ b. refl)

pub json : Json
json = record {
  capabilities_to_json = λ c. ok (caps.put c "");
  capabilities_from_json = λ t. whole (caps.take t);
  attrs_to_string = λ l. ok ((list attr).put l "");
  attrs_from_str = λ t. whole ((list attr).take t);
}

pub json-IsJson : IsJson json
unfolding json
json-IsJson = record {
  capabilities_text = λ c. (caps.put c "", refl, rw (caps.law c "") refl);
  attrs_text = λ l. ((list attr).put l "", refl, rw ((list attr).law l "") refl);
}
