-- ===== src/Cube/Frames.antt =====
-- What 16-cube/main.c shows: its calls of OpenGL, read as the manual of OpenGL describes them,
-- against a description of the pictures.
use otus_c.Common.{ℕ, ◌%◌, Bool, true, false}
use otus_c.Common.{Option, none, some, List, [], ◌∷◌, ◌++◌, ◌==◌, if◌then◌else◌}
use otus_c.Common.{length}
use otus_c.Cube.Faces.{Corner, cube}
use otus_c.Common.{◌+◌, ◌||◌, ◌&&◌, suc}
use otus_c.Cube.Angle.{angle_after}
use otus_c.Cube.{Format, rgb, rgba, enable_depth_test, enable_texture, disable_texture}
use otus_c.Cube.{gen_texture, min_linear, mag_linear, create_window, reshape_func, display_func}
use otus_c.Cube.{post_redisplay, keyboard_func, timer_func, main_loop}
use otus_c.Cube.{Axis, x_axis, y_axis, Mode, projection_mode, modelview_mode}
use otus_c.Cube.{Aspect, of_window, fixed, Call, Image}
use otus_c.Cube.{Event, reshapes, displays, ticks, strikes}
use otus_c.Cube.{
  clear, load_identity, color_white, begin_quads, end_quads, swap_buffers, free_image,
}
use otus_c.Cube.{exit, load_image, bind_texture, tex_image, matrix_mode, translate_back, rotate}
use otus_c.Cube.{perspective, tex_coord, vertex}

-- A factor of a matrix.
pub data Factor : Type 0 where
  moved : ℕ → Factor
  turned : ℕ → Axis → Factor
  lens : ℕ → Aspect → Factor

-- A texture: whether it is scaled linearly, and its image.
pub record Skin : Type 0 where
  pub min_smooth : Bool
  pub mag_smooth : Bool
  pub image : Option (Format × ℕ × ℕ)

-- What is drawn between `glBegin` and `glEnd`: the two matrices, the texture if texturing is enabled,
-- whether the depth is tested and the colour is white, the corners.
pub record Picture : Type 0 where
  pub projection : List Factor
  pub modelview : List Factor
  pub texture : Option Skin
  pub depth : Bool
  pub white : Bool
  pub corners : List Corner

-- The callbacks that GLUT was told of.
pub record Callbacks : Type 0 where
  pub reshaping : Bool
  pub displaying : Bool
  pub typing : Bool
  pub timing : Bool

-- What the calls so far ask for: the matrices; the texture of each name, the name that was generated
-- and the one that is bound; what is enabled, the colour, and the place in the picture for the next
-- corner; the picture that is begun, those drawn, and those shown; how many timers were set and redisplays posted;
-- whether there is a window, the
-- callbacks, whether a block of stb_image is held and whether the program has ended.
pub record Machine : Type 0 where
  pub mode : Mode
  pub projection : List Factor
  pub modelview : List Factor
  pub textures : ℕ → Skin
  pub generated : Option ℕ
  pub bound : ℕ
  pub depth : Bool
  pub texturing : Bool
  pub white : Bool
  pub place : ℕ × ℕ
  pub begun : Option (List Corner)
  pub drawn : List Picture
  pub shown : List (List Picture)
  pub timers : ℕ
  pub posted : ℕ
  pub window : Bool
  pub callers : Callbacks
  pub held : Bool
  pub ended : Bool

-- The texture 0, which is always there, or the one that was generated.
abbrev pub is_name : Option ℕ → ℕ → Bool
is_name none name = name == 0
is_name (some g) name = name == 0 || name == g

-- A change of the texture that is bound.
abbrev pub change_bound : (Skin → Skin) → Machine → Machine
change_bound f m = record m {
  textures = λ name. if name == m.bound then f (m.textures name) else m.textures name;
}

-- A call between `glBegin` and `glEnd`, behind some corners.
inside : Call → List Corner → Machine → Option Machine
inside (tex_coord s t) cs m = some (record m { place = (s, t) })
inside (vertex x y z) cs m =
    some (record m { begun = some (cs ++ ((m.place.0, m.place.1, x, y, z) ∷ [])) })
inside color_white cs m = some (record m { white = true })
inside end_quads cs m =
    let p : Picture = record {
      projection = m.projection;
      modelview = m.modelview;
      texture = if m.texturing then some (m.textures m.bound) else none;
      depth = m.depth;
      white = m.white;
      corners = cs;
    } in
    if length cs % 4 == 0
    then some (record m { begun = none; drawn = m.drawn ++ (p ∷ []) })
    else none
inside _ cs m = none

-- A call that makes or changes the matrix of the mode.
transform : (List Factor → List Factor) → Machine → Machine
transform f m = elim m.mode [
  | projection_mode ↦ record m { projection = f m.projection }
  | modelview_mode ↦ record m { modelview = f m.modelview }
]

-- A call elsewhere. An aspect with h = 0, a corner or an end without a begin, a texture that was not
-- generated, drawing without a window, a block of stb_image that is read or freed while none is held,
-- and a main loop without its callbacks are errors.
outside : Call → Machine → Option Machine
unfolding transform
outside clear m = some (record m { drawn = [] })
outside swap_buffers m = some (record m { shown = m.shown ++ (m.drawn ∷ []) })
outside begin_quads m = if m.window then some (record m { begun = some [] }) else none
outside end_quads m = none
outside (vertex x y z) m = none
outside (tex_coord s t) m = some (record m { place = (s, t) })
outside color_white m = some (record m { white = true })
outside enable_depth_test m = some (record m { depth = true })
outside enable_texture m = some (record m { texturing = true })
outside disable_texture m = some (record m { texturing = false })
outside (gen_texture name) m = some (record m { generated = some name })
outside (bind_texture name) m =
    if is_name m.generated name then some (record m { bound = name }) else none
outside min_linear m = some (change_bound (λ s. record s { min_smooth = true }) m)
outside mag_linear m = some (change_bound (λ s. record s { mag_smooth = true }) m)
outside create_window m = some (record m { window = true })
outside reshape_func m = some (record m { callers = record m.callers { reshaping = true } })
outside display_func m = some (record m { callers = record m.callers { displaying = true } })
outside keyboard_func m = some (record m { callers = record m.callers { typing = true } })
outside (timer_func after) m =
    some (record m { timers = m.timers + 1; callers = record m.callers { timing = true } })
outside post_redisplay m = some (record m { posted = m.posted + 1 })
outside main_loop m =
    let c = m.callers in
    if c.reshaping && (c.displaying && (c.typing && c.timing)) then some m else none
outside (matrix_mode mode) m = some (record m { mode = mode })
outside load_identity m = some (transform (λ fs. []) m)
outside (translate_back n) m = some (transform (λ fs. fs ++ (moved n ∷ [])) m)
outside (rotate angle axis) m = some (transform (λ fs. fs ++ (turned angle axis ∷ [])) m)
outside (perspective angle fixed) m = some (transform (λ fs. fs ++ (lens angle fixed ∷ [])) m)
outside (perspective angle (of_window w h)) m =
    if h == 0 then none else some (transform (λ fs. fs ++ (lens angle (of_window w h) ∷ [])) m)
outside (load_image found) m = if m.held then none else some (record m { held = found })
outside (tex_image f w h) m =
    if m.held then some (change_bound (λ s. record s { image = some (f, w, h) }) m) else none
outside free_image m = if m.held then some (record m { held = false }) else none
outside exit m = some (record m { ended = true })
outside _ m = some m

obey : Call → Machine → Option Machine
unfolding inside outside
obey c m = if m.ended then none else elim m.begun [ some cs ↦ inside c cs m | none ↦ outside c m ]

-- None where a call is an error.
pub run : List Call → Machine → Option Machine
unfolding obey
run [] m = some m
run (c ∷ cs) m = elim (obey c m) [ none ↦ none | some m' ↦ run cs m' ]

-- The pictures that were shown, whether a block of stb_image is still held, and how many timers were
-- set and redisplays posted.
pub record Outcome : Type 0 where
  pub pictures : List (List Picture)
  pub held : Bool
  pub timers : ℕ
  pub posted : ℕ

abbrev pub outcome : Option Machine → Option Outcome
outcome none = none
outcome (some m) =
    some (record { pictures = m.shown; held = m.held; timers = m.timers; posted = m.posted })

abbrev pub no_skin : Skin
no_skin = record { min_smooth = false; mag_smooth = false; image = none }

-- OpenGL and GLUT as they start.
abbrev pub start : Machine
start = record {
  mode = modelview_mode;
  projection = [];
  modelview = [];
  textures = λ name. no_skin;
  generated = none;
  bound = 0;
  depth = false;
  texturing = false;
  white = true;
  place = (0, 0);
  begun = none;
  drawn = [];
  shown = [];
  timers = 0;
  posted = 0;
  window = false;
  callers = record { reshaping = false; displaying = false; typing = false; timing = false };
  held = false;
  ended = false;
}

-- Between two callbacks.
abbrev pub idle : Machine → Machine
idle m = record m {
  mode = modelview_mode;
  depth = true;
  texturing = false;
  begun = none;
  window = true;
  callers = record { reshaping = true; displaying = true; typing = true; timing = true };
  held = false;
  ended = false;
}

-- A cube 5 units away, tilted by 30 degrees and turned by `angle`, with a texture, nearer parts
-- before those behind them.
abbrev pub cube_at : List Factor → ℕ → Skin → Picture
cube_at lenses angle skin = record {
  projection = lenses;
  modelview = moved 5 ∷ turned 60 x_axis ∷ turned angle y_axis ∷ [];
  texture = some skin;
  depth = true;
  white = true;
  corners = cube;
}

-- The picture of the file, smoothly scaled, in the colours that it has.
abbrev pub skin_of : Option Image → Skin
skin_of none = no_skin
skin_of (some i) = record {
  min_smooth = true;
  mag_smooth = true;
  image = some (if i.channels == 4 then rgba else rgb, i.width, i.height);
}

-- What should be shown, from a lens and some ticks on.
unfoldable pub shows : List Factor → ℕ → Skin → List Event → List (List Picture)
shows lenses n skin [] = []
shows lenses n skin (reshapes w h ∷ es) =
    shows (lens 40 (of_window w (if h == 0 then 1 else h)) ∷ []) n skin es
shows lenses n skin (displays ∷ es) =
    (cube_at lenses (angle_after n) skin ∷ []) ∷ shows lenses n skin es
shows lenses n skin (ticks ∷ es) = shows lenses (suc n) skin es
shows lenses n skin (strikes key ∷ es) =
    let rest = shows lenses n skin es in if key == 27 then [] else rest

-- The ticks until Esc.
unfoldable pub ticks_of : List Event → ℕ
ticks_of [] = 0
ticks_of (reshapes w h ∷ es) = ticks_of es
ticks_of (displays ∷ es) = ticks_of es
ticks_of (ticks ∷ es) = suc (ticks_of es)
ticks_of (strikes key ∷ es) = let rest = ticks_of es in if key == 27 then 0 else rest

follow : List Call → Option Machine → Option Machine
follow cs o = elim o [ none ↦ none | some m ↦ run cs m ]

-- What `display` leaves.
abbrev displayed : ℕ → ℕ → Machine → Machine
displayed angle texture m =
    let now = cube_at m.projection angle (m.textures texture) in
    idle (record m {
      modelview = now.modelview;
      bound = texture;
      white = true;
      place = (0, 0);
      drawn = now ∷ [];
      shown = m.shown ++ ((now ∷ []) ∷ []);
    })

-- The outcome behind some pictures and ticks more.
abbrev later : Machine → List (List Picture) → ℕ → Option Outcome
later m pictures n = some (record {
  pictures = m.shown ++ pictures;
  held = false;
  timers = m.timers + n;
  posted = m.posted + n;
})

-- `main` behind the loading of the picture.
abbrev set_up : List Call → List Call
set_up cs =
    matrix_mode projection_mode
    ∷ perspective 45 fixed
    ∷ matrix_mode modelview_mode
    ∷ display_func
    ∷ timer_func 0
    ∷ keyboard_func
    ∷ main_loop
    ∷ cs

abbrev first_lens : Machine
first_lens = record start { projection = lens 45 fixed ∷ []; timers = 1 }

abbrev loaded : ℕ → (Format × ℕ × ℕ) → Machine
loaded name i =
    change_bound (λ s. record s { image = some i })
      (change_bound (λ s. record s { mag_smooth = true })
        (change_bound (λ s. record s { min_smooth = true }) (record start { bound = name })))
