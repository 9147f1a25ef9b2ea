-- ===== src/Btier/MigrationEngine/Copy.antt =====
-- btier/migration_engine.cc, compact: the loop that copies the keys of an extent.
use cxxlab.Prelude.{
  ℕ, arith, ◌≡◌, ◌≢◌, refl, sym, ap, ◌∙◌, some, none, Option, Bool, true, false, Option-cases,
  Bool-cases, inl, inr, nat_eq, Eq, List, [], ◌∷◌, ◌++◌, ltb, add32, ◌==◌, add64,
}
use mathlib.Core.Path.{subst}
use mathlib.Core.Option.{some-injective}
use mathlib.Core.List.{append-nil, append_assoc}
use cxxlab.Btier.Types.{Tier, DiskLocation, KeyLocation, active, header_size}
use cxxlab.Btier.Metrics.{state}
use cxxlab.Btier.ExtentMap.{ExtentEntry, ExtentMap, find, capacity, update_free_list, mark_dirty}
use cxxlab.Btier.ExtentMap.Find.{find-set_entry_ne, find-set_entry_self}
use cxxlab.Btier.ExtentMap.Slots.{append_slot, append_entry, uint32_max}
use cxxlab.Btier.KeyMap.{KeyMap, lookup_loc}
use cxxlab.Btier.MigrationEngine.{
  DeviceOps, Copying, CopyEnd, copied, io_error, no_slot, found_loc, copy_key, copy_keys, copy_more,
  copy_read, copy_written,
}

module _ {A : Type 0} (s : ExtentMap A) (id : ℕ) where
  find-append_slot : (size j : ℕ) → id ≢ j → find (append_slot id size s).1 j ≡ find s j
  unfolding append_slot update_free_list mark_dirty
  find-append_slot size j n = elim (Option-cases (find s id)) [
    | inl missing ↦ rw (missing, append_slot) refl
    | inr (e, h) ↦
        rw (h, append_slot)
          (elim (Bool-cases (state e.raw == active)) [
            | inr busy ↦ rw busy refl
            | inl idle ↦ rw idle (elim (Bool-cases (ltb (capacity e) (add32 e.used_bytes size))) [
              | inl full ↦ rw full refl
              | inr room ↦ rw room (find-set_entry_ne s id (append_entry size e) j n)
            ])
          ])
  ]

  -- A slot that is granted starts at the end of the used bytes.
  append_slot_lem :
      (size : ℕ)
      → ((append_slot id size s).0 == uint32_max) ≡ false
      → (e : ExtentEntry) × (find s id ≡ some e)
        × ((append_slot id size s).0 ≡ e.used_bytes)
        × (find (append_slot id size s).1 id ≡ some (append_entry size e))
  unfolding append_slot update_free_list mark_dirty
  append_slot_lem size = elim (Option-cases (find s id)) [
    | inl missing ↦ rw (missing, append_slot) (λ room. absurd (ground (arith, room)))
    | inr (e, h) ↦
        rw (h, append_slot)
          (elim (Bool-cases (state e.raw == active)) [
            | inr busy ↦ rw busy (λ room. absurd (ground (arith, room)))
            | inl idle ↦ rw idle (elim (Bool-cases (ltb (capacity e) (add32 e.used_bytes size))) [
              | inl full ↦ rw full (λ room. absurd (ground (arith, room)))
              | inr room ↦
                  rw room (λ h'. (e, refl, refl, find-set_entry_self s id (append_entry size e)))
            ])
          ])
  ]

-- A copy changes no extent but the new one.
abbrev pub OnlyNew : {A K D : Type 0} → ℕ → Copying A K D → Copying A K D → Type 0
OnlyNew new_id c c' = (j : ℕ) → new_id ≢ j → find c'.extent_map j ≡ find c.extent_map j

module _ {K D B : Type 0} (dev : DeviceOps D B) (tier : Tier) (src dst : DiskLocation)
    (new_id : ℕ) where
  -- One key is copied to an offset of the new extent: what is read at its old place, behind the header of
  -- the old extent, is written there, behind the header of the new one.
  pub record Moved (offset : ℕ) (k : K) (l : KeyLocation) (u : K × KeyLocation) (d d' : D)
      : Type 0 where
    pub update : u ≡ (k, record { extent_id = new_id; offset = offset; length = l.length })
    pub value : B
    pub was : dev.read tier (add64 (add64 src.offset header_size) l.offset) l.length d ≡ some value
    pub is : dev.write tier (add64 (add64 dst.offset header_size) offset) value d ≡ (true, d')

  -- All keys of a list are copied, one behind the other.
  unfoldable pub Moves :
      ⦃eq : Eq K⦄ → KeyMap K → ℕ → List K → List (K × KeyLocation) → D → D → Type 0
  Moves keys offset [] [] d d' = d' ≡ d
  Moves keys offset [] (u ∷ us) d d' = ⊥
  Moves keys offset (k ∷ ks) [] d d' = ⊥
  Moves keys offset (k ∷ ks) (u ∷ us) d d' =
      let l = found_loc (lookup_loc k keys) in
      (d1 : D) × Moved offset k l u d d1 × Moves keys (add32 offset l.length) ks us d1 d'

module _ {A K D B : Type 0} (dev : DeviceOps D B) (tier : Tier) (src dst : DiskLocation)
    (new_id : ℕ) (k : K) (l : KeyLocation) where
  -- What a round that copies leaves.
  record RoundDone (c c' : Copying A K D) : Type 0 where
    entry : ExtentEntry
    found : find c.extent_map new_id ≡ some entry
    after : find c'.extent_map new_id ≡ some (append_entry l.length entry)
    location : KeyLocation
    moved : Moved dev tier src dst new_id entry.used_bytes k l (k, location) c.devices c'.devices
    added : c'.updates ≡ c.updates ++ (k, location) ∷ []
    only : OnlyNew new_id c c'

  abbrev Round : Copying A K D → CopyEnd × Copying A K D → Type 0
  Round c (copied, c') = RoundDone c c'
  Round c (io_error, c') = OnlyNew new_id c c'
  Round c (no_slot, c') = OnlyNew new_id c c'

  copy_written-Round :
      (w : Bool × D) (c : Copying A K D) (value : B)
      → let (offset, s) = append_slot new_id l.length c.extent_map in
        (offset == uint32_max) ≡ false
        → dev.read tier (add64 (add64 src.offset header_size) l.offset) l.length c.devices
          ≡ some value
        → dev.write tier (add64 (add64 dst.offset header_size) offset) value c.devices ≡ w
        → Round c (copy_written dev tier src dst new_id offset k l w (record c { extent_map = s }))
  copy_written-Round (false, d) c value room r w = find-append_slot c.extent_map new_id l.length
  copy_written-Round (true, d) c value room r w =
      let (e, h, at_end, after) = append_slot_lem c.extent_map new_id l.length room in
      record {
        entry = e;
        found = h;
        after = after;
        location = record {
          extent_id = new_id;
          offset = (append_slot new_id l.length c.extent_map).0;
          length = l.length;
        };
        moved = record { update = rw at_end refl; value = value; was = r; is = rw (sym at_end) w };
        added = refl;
        only = find-append_slot c.extent_map new_id l.length;
      }

  copy_read-Round :
      (o : Option B) (c : Copying A K D)
      → dev.read tier (add64 (add64 src.offset header_size) l.offset) l.length c.devices ≡ o
      → Round c (copy_read dev tier src dst new_id k l o c)
  copy_read-Round none c r = λ j n. refl
  copy_read-Round (some value) c r =
      let (offset, s) = append_slot new_id l.length c.extent_map in
      let c' : Copying A K D = record c { extent_map = s } in
      elim (Bool-cases (offset == uint32_max)) [
        | inl full ↦ rw full (find-append_slot c.extent_map new_id l.length)
        | inr room ↦ rw room (
            copy_written-Round
              (dev.write tier (add64 (add64 dst.offset header_size) offset) value c.devices) c value
              room r refl)
      ]

  copy_key-Round : (c : Copying A K D) → Round c (copy_key dev tier src dst new_id k l c)
  unfolding copy_key
  copy_key-Round c =
      copy_read-Round
        (dev.read tier (add64 (add64 src.offset header_size) l.offset) l.length c.devices) c refl

module _ {A K D B : Type 0} ⦃eq : Eq K⦄ (dev : DeviceOps D B) (tier : Tier) (src dst : DiskLocation)
    (new_id : ℕ) (keys : KeyMap K) where
  -- What the loop leaves, from the entry of the new extent on.
  pub record AllMoved (ks : List K) (us : List (K × KeyLocation)) (e : ExtentEntry)
      (c c' : Copying A K D) : Type 0 where
    pub entry : ExtentEntry
    pub found : find c'.extent_map new_id ≡ some entry
    pub place : entry.location ≡ e.location
    pub moves : Moves dev tier src dst new_id keys e.used_bytes ks us c.devices c'.devices

  abbrev pub CopyOutcome : List K → Copying A K D → CopyEnd × Copying A K D → Type 0
  CopyOutcome ks c (copied, c') =
      (us : List (K × KeyLocation)) × (c'.updates ≡ c.updates ++ us)
      × ((e : ExtentEntry) → find c.extent_map new_id ≡ some e → AllMoved ks us e c c')
      × OnlyNew new_id c c'
  CopyOutcome ks c (io_error, c') = OnlyNew new_id c c'
  CopyOutcome ks c (no_slot, c') = OnlyNew new_id c c'

  -- A round that copies a key, and then the rest of the loop.
  copied_then :
      (k : K) (ks : List K) (c c1 : Copying A K D) (r : CopyEnd × Copying A K D)
      → RoundDone dev tier src dst new_id k (found_loc (lookup_loc k keys)) c c1
      → CopyOutcome ks c1 r
      → CopyOutcome (k ∷ ks) c r
  unfolding Moves append_entry
  copied_then k ks c c1 (copied, c2) q (us, eq2, rest, only2) =
      let l = found_loc (lookup_loc k keys) in
      let m = rest (append_entry l.length q.entry) q.after in
      (
        (k, q.location) ∷ us,
        eq2
            ∙ ap (λ (vs : List (K × KeyLocation)). vs ++ us) q.added
            ∙ append_assoc c.updates ((k, q.location) ∷ []) us,
        (λ e h.
            let same : q.entry ≡ e = some-injective q.entry e (sym q.found ∙ h) in
            subst (λ (x : ExtentEntry). AllMoved (k ∷ ks) ((k, q.location) ∷ us) x c c2) same
              (record {
                entry = m.entry;
                found = m.found;
                place = m.place;
                moves = (c1.devices, q.moved, m.moves);
              })),
        λ j n. only2 j n ∙ q.only j n,
      )
  copied_then k ks c c1 (io_error, c2) q only2 = λ j n. only2 j n ∙ q.only j n
  copied_then k ks c c1 (no_slot, c2) q only2 = λ j n. only2 j n ∙ q.only j n

  copy_more-Outcome :
      (k : K) (ks : List K) (c : Copying A K D) (r : CopyEnd × Copying A K D)
      (rest : Copying A K D → CopyEnd × Copying A K D)
      → Round dev tier src dst new_id k (found_loc (lookup_loc k keys)) c r
      → ((c1 : Copying A K D) → CopyOutcome ks c1 (rest c1))
      → CopyOutcome (k ∷ ks) c (copy_more dev tier src dst new_id keys r rest)
  copy_more-Outcome k ks c (copied, c1) rest r ih = copied_then k ks c c1 (rest c1) r (ih c1)
  copy_more-Outcome k ks c (io_error, c1) rest r ih = r
  copy_more-Outcome k ks c (no_slot, c1) rest r ih = r

  pub copy_keys-Outcome :
      (ks : List K) (c : Copying A K D)
      → CopyOutcome ks c (copy_keys dev tier src dst new_id keys ks c)
  unfolding copy_keys Moves
  copy_keys-Outcome [] c = (
    [],
    sym (append-nil c.updates),
    (λ e h. record { entry = e; found = h; place = refl; moves = refl }),
    λ j n. refl,
  )
  copy_keys-Outcome (k ∷ ks) c =
      let l = found_loc (lookup_loc k keys) in
      copy_more-Outcome k ks c (copy_key dev tier src dst new_id k l c)
        (copy_keys dev tier src dst new_id keys ks) (copy_key-Round dev tier src dst new_id k l c)
        (copy_keys-Outcome ks)
