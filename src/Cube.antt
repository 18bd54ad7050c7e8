-- ===== src/Cube.antt =====
-- 16-cube/main.c: a cube with a picture on its faces that turns, drawn by OpenGL in callbacks of
-- GLUT.
--
-- A function is the list of the calls that it makes, in order, and what it leaves in the global
-- variables. What stb_image and OpenGL answer, and the callbacks that GLUT makes, are arguments.
-- `angle` is counted in halves of a degree: it is only ever added 1.5 to.
pub mod Faces
pub mod Frames
pub mod Angle
pub mod Upload
mod Tests
use otus_c.Common.{ℕ, zero, suc, ◌+◌, ◌*◌, ◌/◌, ◌%◌, ◌^◌, Bool, true, false, Option, none, some}
use otus_c.Common.{List, [], ◌∷◌, ◌++◌, ltb, ◌==◌, if◌then◌else◌}

-- -1.0f and 1.0f
pub data Side : Type 0 where
  low high : Side

pub data Axis : Type 0 where
  x_axis y_axis : Axis

pub data Mode : Type 0 where
  projection_mode modelview_mode : Mode

pub data Format : Type 0 where
  rgb rgba : Format

-- The second argument of `gluPerspective`: `(float)w / (float)h`, or 1.33.
pub data Aspect : Type 0 where
  of_window : ℕ → ℕ → Aspect
  fixed : Aspect

-- A call of OpenGL, GLU, GLUT or stb_image. `translate_back n` is `glTranslatef(0, 0, -n)`; the
-- angle of `rotate` is in halves of a degree, that of `perspective` in degrees, and its planes are
-- 1 and 10. `gen_texture` has the name that `glGenTextures` answers.
pub data Call : Type 0 where
  clear load_identity enable_texture disable_texture enable_depth_test : Call
  color_white begin_quads end_quads swap_buffers post_redisplay : Call
  set_flip free_image glut_init init_display_mode create_window : Call
  reshape_func display_func keyboard_func main_loop exit : Call
  load_image : Bool → Call
  min_linear mag_linear : Call
  gen_texture bind_texture : ℕ → Call
  tex_image : Format → ℕ → ℕ → Call
  init_window_size viewport : ℕ → ℕ → Call
  timer_func : ℕ → Call
  matrix_mode : Mode → Call
  translate_back : ℕ → Call
  rotate : ℕ → Axis → Call
  perspective : ℕ → Aspect → Call
  tex_coord : ℕ → ℕ → Call
  vertex : Side → Side → Side → Call

-- What `stbi_load` tells of a picture.
pub record Image : Type 0 where
  pub width : ℕ
  pub height : ℕ
  pub channels : ℕ

pub format : ℕ → Format
format channels = if channels == 4 then rgba else rgb

-- `loadTexture`, where `name` is what `glGenTextures` answers.
pub load_texture : Option Image → ℕ → List Call
unfolding format
load_texture none name = set_flip ∷ load_image false ∷ []
load_texture (some i) name =
    set_flip
    ∷ load_image true
    ∷ gen_texture name
    ∷ bind_texture name
    ∷ min_linear
    ∷ mag_linear
    ∷ tex_image (format i.channels) i.width i.height
    ∷ free_image
    ∷ []

-- `texture` behind `loadTexture`.
abbrev pub texture_of : Option Image → ℕ → ℕ
texture_of none name = 0
texture_of (some i) name = name

-- `reshape`; the sizes are bit patterns.
pub reshape : ℕ → ℕ → List Call
reshape w h =
    let h' = if h == 0 then 1 else h in
    viewport w h'
    ∷ matrix_mode projection_mode
    ∷ load_identity
    ∷ perspective 40 (of_window w h')
    ∷ matrix_mode modelview_mode
    ∷ []

-- A corner of a face: the place in the picture, and that on the screen.
abbrev pub corner : ℕ → ℕ → Side → Side → Side → List Call → List Call
corner s t x y z rest = tex_coord s t ∷ vertex x y z ∷ rest

abbrev pub front_back : List Call → List Call
front_back rest = corner 0 0 low low high (
    corner 1 0 high low high (
      corner 1 1 high high high (
        corner 0 1 low high high (
          corner 1 0 low low low
            (corner 1 1 low high low (corner 0 1 high high low (corner 0 0 high low low rest)))))))

abbrev pub top_bottom : List Call → List Call
top_bottom rest = corner 0 1 low high low (
    corner 0 0 low high high (
      corner 1 0 high high high (
        corner 1 1 high high low (
          corner 1 1 low low low
            (corner 0 1 high low low (corner 0 0 high low high (corner 1 0 low low high rest)))))))

abbrev pub left_right : List Call → List Call
left_right rest = corner 0 0 low low low (
    corner 1 0 low low high (
      corner 1 1 low high high (
        corner 0 1 low high low (
          corner 1 0 high low low (
            corner 1 1 high high low
              (corner 0 1 high high high (corner 0 0 high low high rest)))))))

-- `display`
pub display : ℕ → ℕ → List Call
display angle texture =
    clear
    ∷ load_identity
    ∷ translate_back 5
    ∷ rotate 60 x_axis
    ∷ rotate angle y_axis
    ∷ enable_texture
    ∷ bind_texture texture
    ∷ color_white
    ∷ begin_quads
    ∷ front_back (top_bottom (left_right (end_quads ∷ disable_texture ∷ swap_buffers ∷ [])))

-- The distance of neighbouring floats, of 24 bits, at `n` halves, for n < 2 ^ 27.
abbrev pub spacing : ℕ → ℕ
spacing n =
    if ltb n (2 ^ 24) then 1 else if ltb n (2 ^ 25) then 2 else if ltb n (2 ^ 26) then 4 else 8

-- `n` halves as a `float`: the nearest multiple of the spacing, of two the even one.
abbrev pub to_float : ℕ → ℕ
to_float n =
    let s = spacing n in
    let down = n / s * s in
    if ltb (2 * (n % s)) s
    then down
    else if ltb s (2 * (n % s))
    then down + s
    else if n / s % 2 == 0
    then down
    else down + s

-- `angle += 1.5f`
pub turn : ℕ → ℕ
turn angle = to_float (angle + 3)

-- The calls of `timer`.
abbrev pub timer : List Call
timer = post_redisplay ∷ timer_func 16 ∷ []

-- `processKeyStroke`
abbrev pub process_key_stroke : ℕ → List Call
process_key_stroke key = if key == 27 then exit ∷ [] else []

-- What GLUT calls.
pub data Event : Type 0 where
  reshapes : ℕ → ℕ → Event
  displays ticks : Event
  strikes : ℕ → Event

-- The calls in `glutMainLoop`; the program ends with `exit`.
pub callbacks : ℕ → ℕ → List Event → List Call
unfolding reshape display turn
callbacks angle texture [] = []
callbacks angle texture (reshapes w h ∷ es) = reshape w h ++ callbacks angle texture es
callbacks angle texture (displays ∷ es) = display angle texture ++ callbacks angle texture es
callbacks angle texture (ticks ∷ es) = timer ++ callbacks (turn angle) texture es
callbacks angle texture (strikes key ∷ es) =
    let rest = callbacks angle texture es in
    process_key_stroke key ++ (if key == 27 then [] else rest)

-- `main`
pub main : Option Image → ℕ → List Event → List Call
unfolding load_texture callbacks
main image name es =
    glut_init
    ∷ init_display_mode
    ∷ init_window_size 800 600
    ∷ create_window
    ∷ reshape_func
    ∷ enable_depth_test
    ∷ (load_texture image name
        ++ (matrix_mode projection_mode
            ∷ perspective 45 fixed
            ∷ matrix_mode modelview_mode
            ∷ display_func
            ∷ timer_func 0
            ∷ keyboard_func
            ∷ main_loop
            ∷ callbacks 0 (texture_of image name) es))
