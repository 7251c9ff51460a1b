-- ===== src/Heap.antt =====
-- pkg/queue/heap/heap.go: the keyed heap under both queues of a scheduling queue. A method that
-- writes returns the new state; nil is `none`, and a nil or missing entry that is read is a panic.
-- `Heap` of the source only points to `data`, so its methods are functions of `Data` here.
pub mod View
pub mod Swap
pub mod Insert
pub mod Remove
use kube_queue.Base.{
  ℕ, ◌-◌, Bool, false, ◌||◌, Option, none, some, String, List, [], ◌∷◌, ◌++◌, map, Dict, lookup,
  insert, erase, length, get_elem?, set, take, Outcome, value, or_panic, ◌>>=◌, ltb, if◌then◌else◌,
}
use kube_queue.Container
use kube_queue.Container.{Interface}

-- An error value: `fmt.Errorf(…)`, or the `cache.KeyError{Obj: obj, Err: err}` of client-go.
pub data GoError {ℓ} (A : Type ℓ) : Type ℓ where
  errorf : String → GoError A
  key_error : A → GoError A → GoError A

-- The key of an object and an error, one of which is meant.
abbrev pub KeyFunc {ℓ} : Type ℓ → Type ℓ
KeyFunc A = A → String × Option (GoError A)

-- A comparison may panic: that of a scheduling queue is a nil function for an unknown policy.
abbrev pub LessFunc {ℓ} : Type ℓ → Type ℓ
LessFunc A = A → A → Outcome Bool

pub record HeapItem {ℓ} (A : Type ℓ) : Type ℓ where
  pub obj : A
  pub index : ℕ

pub record ItemKeyValue {ℓ} (A : Type ℓ) : Type ℓ where
  pub key : String
  pub obj : A

pub record Data {ℓ} (A : Type ℓ) : Type ℓ where
  pub items : Dict (HeapItem A)
  pub queue : List String

module _ {ℓ} {A : Type ℓ} where
  unfoldable pub len : Data A → ℕ
  len h = length h.queue

  -- `item := h.items[key]; item.index = i`
  set_index : String → ℕ → Dict (HeapItem A) → Outcome (Dict (HeapItem A))
  unfolding lookup insert
  set_index key i items = do
    item ← or_panic (lookup key items)
    value (insert key (record item { index = i }) items)

  unfoldable pub swap : Data A → ℕ → ℕ → Outcome (Data A)
  unfolding set_index
  swap h i j = do
    at_i ← or_panic (get_elem? h.queue i)
    at_j ← or_panic (get_elem? h.queue j)
    let queue = set (set h.queue i at_j) j at_i
    now_i ← or_panic (get_elem? queue i)
    items ← set_index now_i i h.items
    now_j ← or_panic (get_elem? queue j)
    items' ← set_index now_j j items
    value (record { items = items'; queue = queue })

  unfoldable pub push : Data A → ItemKeyValue A → Data A
  unfolding insert
  push h kv =
      let n = length h.queue in
      record {
        items = insert kv.key (record { obj = kv.obj; index = n }) h.items;
        queue = h.queue ++ kv.key ∷ [];
      }

  unfoldable pub pop : Data A → Outcome (Option A × Data A)
  unfolding lookup erase
  pop h = do
    key ← or_panic (get_elem? h.queue (length h.queue - 1))
    let shorter = record h { queue = take (length h.queue - 1) h.queue }
    elim (lookup key h.items) [
      | none ↦ value (none, shorter)
      | some item ↦ value (some item.obj, record shorter { items = erase key h.items })
    ]

  unfoldable pub peek : Data A → Outcome (Option A)
  unfolding lookup
  peek h =
      if ltb 0 (length h.queue)
      then (do
        key ← or_panic (get_elem? h.queue 0)
        item ← or_panic (lookup key h.items)
        value (some item.obj))
      else value none

  -- Both guards are `>` in the source, so an index equal to the length is read, and panics.
  unfoldable pub less : LessFunc A → Data A → ℕ → ℕ → Outcome Bool
  unfolding lookup
  less less_func h i j =
      if ltb (length h.queue) i || ltb (length h.queue) j then value false else do
        key_i ← or_panic (get_elem? h.queue i)
        elim (lookup key_i h.items) [
          | none ↦ value false
          | some item_i ↦ do
            key_j ← or_panic (get_elem? h.queue j)
            elim (lookup key_j h.items) [
              | none ↦ value false
              | some item_j ↦ less_func item_i.obj item_j.obj
            ]
        ]

  -- `data` as a heap.Interface.
  unfoldable pub interface : LessFunc A → Interface (Data A) (ItemKeyValue A) A
  unfolding len less swap push pop
  interface less_func = record {
    len = len;
    less = less less_func;
    swap = swap;
    push = push;
    pop = pop;
  }

  unfoldable pub new : Data A
  new = record { items = []; queue = [] }

  -- A lookup by key never fails in the source, which returns a nil error.
  unfoldable pub get_by_key : Data A → String → Option A
  unfolding lookup
  get_by_key h key = elim (lookup key h.items) [ none ↦ none | some item ↦ some item.obj ]

  -- The objects, in the order in which Go happens to range over the map.
  unfoldable pub objects : (Dict (HeapItem A) → Dict (HeapItem A)) → Data A → List A
  objects range h = map (λ (_, item). item.obj) (range h.items)

  -- The methods of Heap, from the point where the key and the error of the object are known.
  module _ (less_func : LessFunc A) (h : Data A) (obj : A) where
    add_as : String × Option (GoError A) → Outcome (Data A × Option (GoError A))
    unfolding lookup insert interface Container.fix Container.push
    add_as (key, some err) = value (h, some (key_error obj err))
    add_as (key, none) = elim (lookup key h.items) [
      | some item ↦ do
        let replaced = record h { items = insert key (record item { obj = obj }) h.items }
        h' ← Container.fix (interface less_func) replaced item.index
        value (h', none)
      | none ↦ do
        h' ← Container.push (interface less_func) h (record { key = key; obj = obj })
        value (h', none)
    ]

    add_if_not_present_as : String × Option (GoError A) → Outcome (Data A × Option (GoError A))
    unfolding lookup interface Container.push
    add_if_not_present_as (key, some err) = value (h, some (key_error obj err))
    add_if_not_present_as (key, none) = elim (lookup key h.items) [
      | some item ↦ value (h, none)
      | none ↦ do
        h' ← Container.push (interface less_func) h (record { key = key; obj = obj })
        value (h', none)
    ]

    delete_as : String × Option (GoError A) → Outcome (Data A × Option (GoError A))
    unfolding lookup interface Container.remove
    delete_as (key, some err) = value (h, some (key_error obj err))
    delete_as (key, none) = elim (lookup key h.items) [
      | some item ↦ do
        (_, h') ← Container.remove (interface less_func) h item.index
        value (h', none)
      | none ↦ value (h, some (errorf "object not found"))
    ]

    get_as : String × Option (GoError A) → Option A × Option (GoError A)
    unfolding get_by_key
    get_as (key, some err) = (none, some (key_error obj err))
    get_as (key, none) = (get_by_key h key, none)

  module _ (key_func : KeyFunc A) (less_func : LessFunc A) where
    unfoldable pub add : Data A → A → Outcome (Data A × Option (GoError A))
    unfolding add_as
    add h obj = add_as less_func h obj (key_func obj)

    unfoldable pub add_if_not_present : Data A → A → Outcome (Data A × Option (GoError A))
    unfolding add_if_not_present_as
    add_if_not_present h obj = add_if_not_present_as less_func h obj (key_func obj)

    unfoldable pub update : Data A → A → Outcome (Data A × Option (GoError A))
    unfolding add
    update h obj = add h obj

    -- The method Delete.
    unfoldable pub delete : Data A → A → Outcome (Data A × Option (GoError A))
    unfolding delete_as
    delete h obj = delete_as less_func h obj (key_func obj)

    -- The method Get: an object if there is one, and the error of the key.
    unfoldable pub get : Data A → A → Option A × Option (GoError A)
    unfolding get_as
    get h obj = get_as less_func h obj (key_func obj)

  -- The method Pop: the object that it returns is nil beside an error.
  unfoldable pub pop_top : LessFunc A → Data A → Outcome (Option A × Option (GoError A) × Data A)
  unfolding interface Container.pop
  pop_top less_func h = do
    (obj, h') ← Container.pop (interface less_func) h
    value (elim obj [
      | some o ↦ (some o, none, h')
      | none ↦ (none, some (errorf "object was removed from heap data"), h')
    ])
