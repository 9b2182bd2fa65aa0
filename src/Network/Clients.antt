-- ===== src/Network/Clients.antt =====
-- The vector `connectedClients`, its ids, and the map of callbacks that belongs to it.
use samurai_kirby_server.Prelude.{
  ℕ, suc, ◌≤◌, ◌<◌, true, false, List, [], ◌∷◌, ◌++◌, ◌≡◌, refl, ap, arith, has_value, Bool-cases,
  inl, inr, All, ◌==◌,
}
use samurai_kirby_server.Prelude.UnorderedMap.{update, erase}
use samurai_kirby_server.Network.{ConnectedClient, find_client}
use samurai_kirby_server.Network.Serving.{mark_disconnected, erase_client, is_disconnected}

-- A callback for each client, under the id of the client.
abbrev pub entries : List ConnectedClient → List (ℕ × ℕ)
entries [] = []
entries (c ∷ rest) = (c.id, c.id) ∷ entries rest

-- The ids go up from `k`, and stay below `n`.
abbrev pub Ascending : ℕ → List ConnectedClient → ℕ → Type 0
Ascending k [] n = k ≤ n
Ascending k (c ∷ rest) n = (k ≤ c.id) × Ascending (suc c.id) rest n

abbrev pub AllLive : List ConnectedClient → Type 0
AllLive clients = All (λ c. c.has_been_disconnected ≡ false) clients

Ascending-weaken :
    (j k n : ℕ) (cs : List ConnectedClient) → j ≤ k → Ascending k cs n → Ascending j cs n
Ascending-weaken j k n [] le up = omega arith
Ascending-weaken j k n (c ∷ rest) le (least, up) = (omega arith, up)

pub Ascending-bound : (k n : ℕ) (cs : List ConnectedClient) → Ascending k cs n → k ≤ n
Ascending-bound k n [] up = up
Ascending-bound k n (c ∷ rest) (least, up) =
    omega (arith, least, Ascending-bound (suc c.id) n rest up)

pub Ascending-append :
    (k n : ℕ) (cs : List ConnectedClient) (c : ConnectedClient)
    → c.id ≡ n
    → Ascending k cs n
    → Ascending k (cs ++ c ∷ []) (suc n)
Ascending-append k n [] c e up = (omega arith, omega arith)
Ascending-append k n (d ∷ rest) c e (least, up) = (least, Ascending-append (suc d.id) n rest c e up)

pub update-entries :
    (k n : ℕ) (cs : List ConnectedClient) (c : ConnectedClient)
    → c.id ≡ n
    → Ascending k cs n
    → update n n (λ _. n) (entries cs) ≡ entries (cs ++ c ∷ [])
unfolding update
update-entries k n [] c e up = rw e refl
update-entries k n (d ∷ rest) c e (least, up) =
    ground (arith, Ascending-bound (suc d.id) n rest up, update-entries (suc d.id) n rest c e up)

erase-absent :
    (id k n : ℕ) (cs : List ConnectedClient)
    → id < k
    → Ascending k cs n
    → erase id (entries cs) ≡ entries cs
unfolding erase
erase-absent id k n [] lt up = refl
erase-absent id k n (c ∷ rest) lt (least, up) =
    ground (arith, erase-absent id (suc c.id) n rest (omega arith) up)

pub erase-entries :
    (id k n : ℕ) (cs : List ConnectedClient)
    → Ascending k cs n
    → erase id (entries cs) ≡ entries (erase_client id cs)
unfolding erase
erase-entries id k n [] up = refl
erase-entries id k n (c ∷ rest) (least, up) = elim (Bool-cases (c.id == id)) [
  | inl e ↦ rw e (erase-absent id (suc c.id) n rest (ground arith) up)
  | inr e ↦ rw e (ap (λ es. (c.id, c.id) ∷ es) (erase-entries id (suc c.id) n rest up))
]

pub Ascending-erase :
    (id k n : ℕ) (cs : List ConnectedClient) → Ascending k cs n → Ascending k (erase_client id cs) n
Ascending-erase id k n [] up = up
Ascending-erase id k n (c ∷ rest) (least, up) = elim (Bool-cases (c.id == id)) [
  | inl e ↦ rw e (Ascending-weaken k (suc c.id) n rest (omega arith) up)
  | inr e ↦ rw e (least, Ascending-erase id (suc c.id) n rest up)
]

pub entries-mark :
    (id : ℕ) (cs : List ConnectedClient) → entries (mark_disconnected id cs) ≡ entries cs
entries-mark id [] = refl
entries-mark id (c ∷ rest) = ground (arith, entries-mark id rest)

pub Ascending-mark :
    (id k n : ℕ) (cs : List ConnectedClient)
    → Ascending k cs n
    → Ascending k (mark_disconnected id cs) n
Ascending-mark id k n [] up = up
Ascending-mark id k n (c ∷ rest) (least, up) = elim (Bool-cases (c.id == id)) [
  | inl e ↦ rw e (least, up)
  | inr e ↦ rw e (least, Ascending-mark id (suc c.id) n rest up)
]

pub erase-mark :
    (id : ℕ) (cs : List ConnectedClient)
    → erase_client id (mark_disconnected id cs) ≡ erase_client id cs
erase-mark id [] = refl
erase-mark id (c ∷ rest) = ground (arith, erase-mark id rest)

pub AllLive-erase : (id : ℕ) (cs : List ConnectedClient) → AllLive cs → AllLive (erase_client id cs)
AllLive-erase id [] live = live
AllLive-erase id (c ∷ rest) (here, live) = elim (Bool-cases (c.id == id)) [
  | inl e ↦ rw e live
  | inr e ↦ rw e (here, AllLive-erase id rest live)
]

-- A client that is marked and not found disconnected is not there.
pub AllLive-mark :
    (id : ℕ) (cs : List ConnectedClient)
    → AllLive cs
    → is_disconnected id (mark_disconnected id cs) ≡ false
    → AllLive (mark_disconnected id cs)
AllLive-mark id [] live absent = live
AllLive-mark id (c ∷ rest) (here, live) absent = elim (Bool-cases (c.id == id)) [
  | inl e ↦ ground arith
  | inr e ↦ rw e (here, AllLive-mark id rest live (ground arith))
]

-- Each callback of the map belongs to a client.
abbrev pub AllFound : List (ℕ × ℕ) → List ConnectedClient → Type 0
AllFound callbacks clients =
    All (λ (e : ℕ × ℕ). has_value (find_client e.1 clients) ≡ true) callbacks

AllFound-cons :
    (es : List (ℕ × ℕ)) (c : ConnectedClient) (cs : List ConnectedClient)
    → AllFound es cs
    → AllFound es (c ∷ cs)
AllFound-cons [] c cs found = found
AllFound-cons (e ∷ rest) c cs (here, found) = (ground arith, AllFound-cons rest c cs found)

pub AllFound-entries : (cs : List ConnectedClient) → AllFound (entries cs) cs
AllFound-entries [] = tt
AllFound-entries (c ∷ rest) =
    (ground arith, AllFound-cons (entries rest) c rest (AllFound-entries rest))
