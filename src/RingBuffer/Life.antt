-- ===== src/RingBuffer/Life.antt =====
-- Loading and unloading the module of 14-module/main.c: what `chardev_init`, `init_rb`,
-- `chardev_exit` and `cleanup_rb` register, allocate and give back.
use otus_c.Common.{ℕ, ◌≡◌, ◌≢◌, Bool, true, false, Option, none, some, arith}

-- What the kernel holds for the module: the number region, the character device, the class, the
-- device node, the structure `rb`, and `rb->buffer`.
pub record Held : Type 0 where
  pub region : Bool
  pub cdev : Bool
  pub class : Bool
  pub device : Bool
  pub rb : Bool
  pub buffer : Bool

abbrev pub nothing : Held
nothing = record {
  region = false;
  cdev = false;
  class = false;
  device = false;
  rb = false;
  buffer = false;
}

-- What the kernel's calls answer: `some e` is the error code `e`.
pub record Answers : Type 0 where
  pub alloc_region : Option ℕ
  pub add_cdev : Option ℕ
  pub create_class : Option ℕ
  pub create_device : Option ℕ
  pub alloc_buffer : Option ℕ

-- `init_rb`, where the structure is allocated; it frees it if there is no buffer.
init_rb : Answers → Held → Held × Option ℕ
init_rb a h = elim a.alloc_buffer [
  | some e ↦ (record h { rb = false }, some e)
  | none ↦ (record h { rb = true; buffer = true }, none)
]

-- The state of the kernel and the code returned; `none` is 0. The attribute file is created last,
-- and its failure only logged.
pub chardev_init : Answers → Held → Held × Option ℕ
unfolding init_rb
chardev_init a h = elim a.alloc_region [
  | some e ↦ (h, some e)
  | none ↦ elim a.add_cdev [
    | some e ↦ (record h { region = false }, some e)
    | none ↦ elim a.create_class [
      | some e ↦ (record h { cdev = false; region = false }, some e)
      | none ↦ elim a.create_device [
        | some e ↦ (record h { class = false; cdev = false; region = false }, some e)
        | none ↦ init_rb a (record h { region = true; cdev = true; class = true; device = true })
      ]
    ]
  ]
]

-- `cleanup_rb` frees the structure alone.
cleanup_rb : Held → Held
cleanup_rb h = record h { rb = false }

pub chardev_exit : Held → Held
unfolding cleanup_rb
chardev_exit h =
    cleanup_rb (record h { device = false; class = false; cdev = false; region = false })

-- Loading: where one of the four registrations fails, nothing is kept; where all succeed and the
-- buffer is allocated, everything is held and 0 is returned. In both cases unloading gives back
-- all but the memory of the buffer.
pub init-exit :
    (a : Answers)
    → let (h, r) = chardev_init a nothing in
      (r ≢ none → a.alloc_buffer ≡ none → h ≡ nothing)
      × (r ≡ none → chardev_exit h ≡ record nothing { buffer = true })
unfolding chardev_init chardev_exit
init-exit a = ground arith

-- Where only the buffer's allocation fails, loading fails with its error code, but the four
-- registrations stay.
pub init_no_memory :
    (a : Answers) (e : ℕ)
    → a.alloc_region ≡ none
    → a.add_cdev ≡ none
    → a.create_class ≡ none
    → a.create_device ≡ none
    → a.alloc_buffer ≡ some e
    → chardev_init a nothing
      ≡ (record nothing { region = true; cdev = true; class = true; device = true }, some e)
unfolding chardev_init
init_no_memory a e p q r s t = ground arith
