-- ===== src/Cube/Tests.antt =====
-- Small runs of 16-cube/main.c, and its theorems there.
use otus_c.Common.{◌≡◌, ◌≤◌, ◌*◌, ◌+◌, ◌^◌, ◌↔◌, ◌⊎◌, ◌%◌, refl, arith, some, List, [], ◌∷◌}
use otus_c.Cube.{Image, Event, reshapes, displays, ticks, strikes, load_texture, turn, fixed}
use otus_c.Cube.{of_window, rgb}
use otus_c.Common.{true}
use otus_c.Cube.Frames.{Skin, lens, shows, cube_at}
use otus_c.Cube.Angle.{angle_after, angle_after-stops}
use otus_c.Cube.Upload.{uploaded, load_texture-fits}

-- The picture of the repository.
abbrev picture : Image
picture = record { width = 197; height = 255; channels = 3 }

-- A window without a row, a tick, Esc.
abbrev events : List Event
events = displays ∷ reshapes 800 0 ∷ ticks ∷ strikes 32 ∷ displays ∷ strikes 27 ∷ displays ∷ []

abbrev skin : Skin
skin = record { min_smooth = true; mag_smooth = true; image = some (rgb, 197, 255) }

shown :
    shows (lens 45 fixed ∷ []) 0 skin events
    ≡ (cube_at (lens 45 fixed ∷ []) 0 skin ∷ [])
      ∷ (cube_at (lens 40 (of_window 800 1) ∷ []) 3 skin ∷ [])
      ∷ []
unfolding shows turn angle_after
shown = refl

angle_after-stops_example :
    (angle_after 2 ≡ 6) × (angle_after (2 ^ 25) ≡ 2 ^ 26) × (angle_after 9 ≤ 2 ^ 26)
angle_after-stops_example = angle_after-stops 2 (2 ^ 25) 9 (omega arith) (omega arith)

-- Rows of 591 bytes are read as rows of 592: 254 bytes too many.
reads_beyond : uploaded (load_texture (some picture) 7) ≡ 255 * (197 * 3) + 254
unfolding uploaded load_texture
reads_beyond = refl

load_texture-fits_example : (uploaded (load_texture (some picture) 7) ≤ 255 * (197 * 3)) ↔ (
    (picture.channels ≡ 4) ⊎ ((picture.channels ≡ 3) × ((picture.height ≡ 1) ⊎ (197 * 3 % 4 ≡ 0))))
load_texture-fits_example =
    load_texture-fits picture 7 (omega arith, omega arith, omega arith, omega arith)
