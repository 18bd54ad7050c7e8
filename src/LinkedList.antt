-- ===== src/LinkedList.antt =====
-- 3-asm/main.c: a list of integers on the heap.
--
-- The heap is the list of what is allocated and not freed, and `malloc` is a parameter that gives
-- the address of the next block, or 0. The use of a block that is not allocated is undefined in C:
-- it is `none`. The recursive functions and the loops run on fuel.
pub mod Chains
pub mod Filter
pub mod Program
mod Tests
use otus_c.Common.{
  ℕ, zero, suc, ◌+◌, ◌-◌, ◌%◌, ◌^◌, Bool, true, false, Option, none, some, List, [], ◌∷◌,
}
use otus_c.Common.{ltb, ◌==◌, if◌then◌else◌, length}

pub record ListElement : Type 0 where
  pub value : ℕ
  pub next : ℕ

abbrev pub Heap : Type 0
Heap = List (ℕ × ListElement)

abbrev pub load : ℕ → Heap → Option ListElement
load a [] = none
load a ((b, c) ∷ h) = if a == b then some c else load a h

abbrev pub free : ℕ → Heap → Heap
free a [] = []
free a ((b, c) ∷ h) = if a == b then free a h else (b, c) ∷ free a h

-- `p`: the remainder of an `int`, below 0 for a negative one.
pub p : ℕ → ℕ
p arg = if ltb arg (2 ^ 31) then arg % 2 else (2 ^ 32 - arg % 2) % 2 ^ 32

-- `m`: the values that `func` is called with.
pub m : ℕ → ℕ → Heap → Option (List ℕ)
m zero element h = none
m (suc n) element h = elim (element == 0) [
  | true ↦ some []
  | false ↦ elim (load element h) [
    | none ↦ none
    | some c ↦ elim (m n c.next h) [ none ↦ none | some printed ↦ some (c.value ∷ printed) ]
  ]
]

-- The loop at the end of `main`.
pub free_all : ℕ → ℕ → Heap → Option Heap
free_all zero new_head h = none
free_all (suc n) new_head h = elim (load new_head h) [
  | none ↦ none
  | some c ↦ elim (c.next == 0) [
    | true ↦ some (free new_head h)
    | false ↦ free_all n c.next (free new_head h)
  ]
]

-- What `main` prints, by its two calls of `m`, the heap at its end, and the exit code.
pub data Exit : Type 0 where
  no_memory : Exit
  ended : List ℕ → List ℕ → Heap → Exit

module _ (malloc : Heap → ℕ) where
  pub add_element : ℕ → ℕ → Heap → ℕ × Heap
  add_element value next h =
      let a = malloc h in
      if a == 0 then (0, h) else (a, (a, record { value = value; next = next }) ∷ h)

  abbrev pub add_if : ℕ → ℕ → ℕ → Heap → ℕ × Heap
  add_if res value head h = if res == 0 then (head, h) else add_element value head h

  -- `f`
  pub f : ℕ → ℕ → ℕ → (ℕ → ℕ) → Heap → Option (ℕ × Heap)
  unfolding add_element
  f zero element head func h = none
  f (suc n) element head func h = elim (element == 0) [
    | true ↦ some (head, h)
    | false ↦ elim (load element h) [
      | none ↦ none
      | some c ↦
          let added = add_if (func c.value) c.value head h in
          elim (f n c.next added.0 func added.1) [
            | none ↦ none
            | some (head', h') ↦ elim (load element h') [
              | none ↦ none
              | some freed ↦ some (head', free element h')
            ]
          ]
    ]
  ]

  -- The first loop of `main`, over the rest of the array, the last value first; `none` where there
  -- is no memory.
  pub add_data : List ℕ → ℕ → Heap → Option (ℕ × Heap)
  unfolding add_element
  add_data [] head h = some (head, h)
  add_data (x ∷ data_) head h = elim (add_data data_ head h) [
    | none ↦ none
    | some (head', h') ↦
        let added = add_element x head' h' in if added.0 == 0 then none else some added
  ]

  -- `main`, where `head`, which it does not initialise, holds the given address.
  pub main : List ℕ → ℕ → Option Exit
  unfolding add_data m f free_all
  main data_ head =
      let fuel = suc (length data_) in
      elim (add_data data_ head []) [
        | none ↦ some no_memory
        | some (head', h) ↦ elim (m fuel head' h) [
          | none ↦ none
          | some printed ↦ elim (f fuel head' 0 p h) [
            | none ↦ none
            | some (new_head, h') ↦ elim (m fuel new_head h') [
              | none ↦ none
              | some printed' ↦ elim (free_all fuel new_head h') [
                | none ↦ none
                | some h'' ↦ some (ended printed printed' h'')
              ]
            ]
          ]
        ]
      ]
