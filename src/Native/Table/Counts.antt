-- ===== src/Native/Table/Counts.antt =====
-- `live` in server/switch_stream.c: the number of clients that watch each stream.
use capture2cloud.Base.{
  ℕ, zero, suc, ◌+◌, ◌<◌, List, [], ◌∷◌, Bool, false, ◌&&◌, ◌==◌, ◌≡◌, refl, sym, ap, ap₂, ◌∙◌,
  if◌then◌else◌, if_holds, ==_iff, Bool-cases, inl, inr, get_or, set, length, length-set,
  get_or-set_self, get_or-set_ne, get_or-replicate, replicate, arith,
}
use capture2cloud.Native.{
  SsClient, no_client, SwitchStream, client, codec_slot, client_slot, stream_count,
}
use capture2cloud.Native.Table.{put, is_live, counted, counts, differs, recount, drop_client}

-- Whether a client is connected and on a stream, and how many of them are.
abbrev pub watches : ℕ → SsClient → Bool
watches slot c = is_live c && (client_slot c == slot)

unfoldable pub watchers : ℕ → List SsClient → ℕ
watchers slot [] = 0
watchers slot (c ∷ cs) = (if watches slot c then 1 else 0) + watchers slot cs

-- `live` holds for each stream the number of the clients that watch it.
pub record IsCounted (s : SwitchStream) : Type 0 where
  pub streams : length s.live ≡ stream_count
  pub live : (slot : ℕ) → slot < stream_count → get_or s.live slot 0 ≡ watchers slot s.clients

pub client_slot-lt : (c : SsClient) → client_slot c < stream_count
unfolding client_slot codec_slot
client_slot-lt c = ground arith

length-counted : (c : SsClient) (n : List ℕ) → length (counted c n) ≡ length n
unfolding counted
length-counted c n =
    if_holds (λ (m : List ℕ). length m ≡ length n) (is_live c) (length-set n _ _) refl

length-counts : (cs : List SsClient) (n : List ℕ) → length (counts cs n) ≡ length n
unfolding counts
length-counts [] n = refl
length-counts (c ∷ cs) n = length-counts cs (counted c n) ∙ length-counted c n

abbrev one_if : Bool → ℕ
one_if b = if b then 1 else 0

bumped :
    (k slot : ℕ) (n : List ℕ)
    → slot < length n
    → get_or (set n slot (get_or n slot 0 + 1)) k 0 ≡ get_or n k 0 + one_if (slot == k)
bumped k slot n h = elim (Bool-cases (slot == k)) [
  | inl e ↦
      let same : slot ≡ k = (==_iff slot k).0 e in
      rw (e, sym same) (get_or-set_self n slot (get_or n slot 0 + 1) 0 h)
  | inr e ↦ rw e (get_or-set_ne n slot k (get_or n slot 0 + 1) 0 (ground arith) ∙ omega arith)
]

counted-watches :
    (k : ℕ) (c : SsClient) (n : List ℕ)
    → length n ≡ stream_count
    → get_or (counted c n) k 0 ≡ get_or n k 0 + one_if (watches k c)
unfolding counted
counted-watches k c n h = elim (Bool-cases (is_live c)) [
  | inl e ↦ rw e (bumped k (client_slot c) n (omega (arith, client_slot-lt c, h)))
  | inr e ↦ rw e (omega arith)
]

-- The loop of `recount` counts the watchers of each stream.
counts-watchers :
    (k : ℕ) (cs : List SsClient) (n : List ℕ)
    → length n ≡ stream_count
    → get_or (counts cs n) k 0 ≡ get_or n k 0 + watchers k cs
unfolding counts watchers
counts-watchers k [] n h = omega arith
counts-watchers k (c ∷ cs) n h =
    omega
      (arith, counts-watchers k cs (counted c n) (length-counted c n ∙ h), counted-watches k c n h)

same_unless-differs : (n m : List ℕ) → length n ≡ length m → differs n m ≡ false → n ≡ m
unfolding differs
same_unless-differs [] [] e h = refl
same_unless-differs [] (b ∷ m) e h = absurd (omega arith)
same_unless-differs (a ∷ n) [] e h = absurd (omega arith)
same_unless-differs (a ∷ n) (b ∷ m) e h =
    ap₂ ◌∷◌ (ground arith) (same_unless-differs n m (omega arith) (ground arith))

recount-live :
    (s : SwitchStream)
    → length s.live ≡ stream_count
    → (recount s).live ≡ counts s.clients (replicate stream_count 0)
unfolding recount
recount-live s h =
    elim (Bool-cases (differs (counts s.clients (replicate stream_count 0)) s.live)) [
      | inl e ↦ rw e refl
      | inr e ↦ rw e (
          sym (
            same_unless-differs _ s.live
              (length-counts s.clients (replicate stream_count 0) ∙ sym h) e))
    ]

pub recount-clients : (s : SwitchStream) → (recount s).clients ≡ s.clients
unfolding recount
recount-clients s =
    if_holds (λ (t : SwitchStream). t.clients ≡ s.clients) (differs _ s.live) refl refl

pub recount-IsCounted : (s : SwitchStream) → length s.live ≡ stream_count → IsCounted (recount s)
recount-IsCounted s h = record {
  streams = ap length (recount-live s h) ∙ length-counts s.clients (replicate stream_count 0);
  live = λ slot lt.
      let fresh : get_or (counts s.clients (replicate stream_count 0)) slot 0
          ≡ watchers slot s.clients =
        omega (
          arith,
          counts-watchers slot s.clients (replicate stream_count 0) refl,
          get_or-replicate {A = ℕ} stream_count 0 slot,
        ) in
      ap (λ n. get_or n slot 0) (recount-live s h)
      ∙ fresh
      ∙ ap (watchers slot) (sym (recount-clients s));
}

pub drop_client_live :
    (s : SwitchStream) (i : ℕ)
    → (drop_client s i).0 ≡ (if (client s i).in_use then recount (put s i no_client) else s)
unfolding drop_client
drop_client_live s i = elim (Bool-cases (client s i).in_use) [
  | inl e ↦ rw e refl
  | inr e ↦ rw e refl
]

pub drop_client-IsCounted : (s : SwitchStream) (i : ℕ) → IsCounted s → IsCounted (drop_client s i).0
drop_client-IsCounted s i h =
    rw (drop_client_live s i)
      (if_holds IsCounted (client s i).in_use (recount-IsCounted (put s i no_client) h.streams) h)

watchers-set :
    (k : ℕ) (cs : List SsClient) (i : ℕ) (c : SsClient)
    → watches k c ≡ watches k (get_or cs i no_client)
    → watchers k (set cs i c) ≡ watchers k cs
unfolding watchers
watchers-set k [] i c e = refl
watchers-set k (d ∷ cs) zero c e = ap (λ b. one_if b + watchers k cs) e
watchers-set k (d ∷ cs) (suc i) c e = ap (λ n. one_if (watches k d) + n) (watchers-set k cs i c e)

-- A change of a client that leaves it on its stream needs no recount.
pub put-IsCounted :
    (s : SwitchStream) (i : ℕ) (c : SsClient)
    → ((k : ℕ) → watches k c ≡ watches k (client s i))
    → IsCounted s
    → IsCounted (put s i c)
put-IsCounted s i c e h = record {
  streams = h.streams;
  live = λ slot lt. h.live slot lt ∙ sym (watchers-set slot s.clients i c (e slot));
}

-- What counts is the table and `live`.
pub same_clients-IsCounted :
    (s t : SwitchStream) → t.live ≡ s.live → t.clients ≡ s.clients → IsCounted s → IsCounted t
same_clients-IsCounted s t l c h = record {
  streams = ap length l ∙ h.streams;
  live = λ slot lt. ap (λ n. get_or n slot 0) l ∙ h.live slot lt ∙ ap (watchers slot) (sym c);
}
