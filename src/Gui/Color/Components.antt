-- ===== src/Gui/Color/Components.antt =====
-- The colours of the window against the colours of the profiles' LED.
use legion_linux_toolkit_rus.Prelude.{String, ◌≡◌, refl, some}
use legion_linux_toolkit_rus.Prelude.Result.{ok, err}
use legion_linux_toolkit_rus.Hw.Error.{HwResult}
use legion_linux_toolkit_rus.Hw.Profile
use legion_linux_toolkit_rus.Hw.Profile.{PowerProfile, LedColor, blue, white, red, purple}
use legion_linux_toolkit_rus.Gui.Labels.{profile_color}
use legion_linux_toolkit_rus.Gui.Color.{Rgb, profile_rgb}

-- The components of the colour of a LED, and of the grey that stands for no profile.
abbrev pub led_rgb : LedColor → Rgb
led_rgb blue = (59, 130, 246)
led_rgb white = (229, 231, 235)
led_rgb red = (239, 68, 68)
led_rgb purple = (168, 85, 247)

abbrev pub shown_rgb : HwResult PowerProfile → Rgb
unfolding Profile.led_color
shown_rgb (ok p) = led_rgb (Profile.led_color p)
shown_rgb (err e) = (153, 160, 176)

rgb_of :
    (profile : String) (r : HwResult PowerProfile)
    → Profile.from_sysfs profile ≡ r
    → profile_rgb profile ≡ some (shown_rgb r)
unfolding profile_rgb profile_color Profile.led_color
rgb_of profile (ok Profile.quiet) e = rw e refl
rgb_of profile (ok Profile.balanced) e = rw e refl
rgb_of profile (ok Profile.performance) e = rw e refl
rgb_of profile (ok Profile.extreme) e = rw e refl
rgb_of profile (ok Profile.custom) e = rw e refl
rgb_of profile (err x) e = rw e refl

-- The window's colour for a token of the kernel is that of the LED of the profile it names, in
-- components, and a grey for a token that names none; it never panics.
pub profile_rgb-led :
    (profile : String) → profile_rgb profile ≡ some (shown_rgb (Profile.from_sysfs profile))
profile_rgb-led profile = rgb_of profile (Profile.from_sysfs profile) refl
