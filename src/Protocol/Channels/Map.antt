-- ===== src/Protocol/Channels/Map.antt =====
-- The channel map and the groups that it is split into.
use userface.Base.{
  ℕ, zero, suc, ◌+◌, ◌≤◌, ◌<◌, ◌≡◌, refl, ◌∙◌, sym, ap, ap₂, true, arith, length, take, Bool-cases,
  inl, inr, List, [], ◌∷◌, ◌++◌, map, subst,
}
use mathlib.Core.List.{append_assoc, append-nil}
use userface.Protocol.Rate.{Speed, x1, x2, x4}
use userface.Protocol.Codec.{frames_in_payload}
use userface.Protocol.Channels.{
  BwLimit, send_all, no_adat2, analog_spdif, analog_only, Direction, capture, playback, ChannelSlot,
  push_from, push_pair, channel_map, pcm_channels, analog_channels, spdif_channels, adat_channels,
  adat_base, frames_per_packet, packet_payload_bytes, GroupName, mic_group, analog_group,
  phones_group, spdif_group, adat_group, channel_group_name, same_name, ChannelGroup, add_channel,
  add_channels, channel_groups,
}

-- What holds of every map by computation: its length, and its channels as the first of those at
-- single speed.
abbrev pub MapShape : Direction → Speed → BwLimit → Type 0
MapShape d s m =
    (length (channel_map d s m) ≡ pcm_channels s m)
    × (channel_map d s m ≡ take (pcm_channels s m) (channel_map d x1 m))
    × (pcm_channels s m ≤ 28)

-- A channel map has as many entries as the stream has channels, at most 28; and the map at a higher
-- speed is the beginning of the map at single speed, so that a rate change only cuts channels off the
-- end. In every direction, speed and bandwidth mode.
pub channel_map-MapShape : (d : Direction) (s : Speed) (m : BwLimit) → MapShape d s m
unfolding channel_map push_from push_pair pcm_channels analog_channels spdif_channels adat_channels
    adat_base
channel_map-MapShape capture x1 send_all = (refl, refl, omega arith)
channel_map-MapShape capture x1 no_adat2 = (refl, refl, omega arith)
channel_map-MapShape capture x1 analog_spdif = (refl, refl, omega arith)
channel_map-MapShape capture x1 analog_only = (refl, refl, omega arith)
channel_map-MapShape capture x2 send_all = (refl, refl, omega arith)
channel_map-MapShape capture x2 no_adat2 = (refl, refl, omega arith)
channel_map-MapShape capture x2 analog_spdif = (refl, refl, omega arith)
channel_map-MapShape capture x2 analog_only = (refl, refl, omega arith)
channel_map-MapShape capture x4 send_all = (refl, refl, omega arith)
channel_map-MapShape capture x4 no_adat2 = (refl, refl, omega arith)
channel_map-MapShape capture x4 analog_spdif = (refl, refl, omega arith)
channel_map-MapShape capture x4 analog_only = (refl, refl, omega arith)
channel_map-MapShape playback x1 send_all = (refl, refl, omega arith)
channel_map-MapShape playback x1 no_adat2 = (refl, refl, omega arith)
channel_map-MapShape playback x1 analog_spdif = (refl, refl, omega arith)
channel_map-MapShape playback x1 analog_only = (refl, refl, omega arith)
channel_map-MapShape playback x2 send_all = (refl, refl, omega arith)
channel_map-MapShape playback x2 no_adat2 = (refl, refl, omega arith)
channel_map-MapShape playback x2 analog_spdif = (refl, refl, omega arith)
channel_map-MapShape playback x2 analog_only = (refl, refl, omega arith)
channel_map-MapShape playback x4 send_all = (refl, refl, omega arith)
channel_map-MapShape playback x4 no_adat2 = (refl, refl, omega arith)
channel_map-MapShape playback x4 analog_spdif = (refl, refl, omega arith)
channel_map-MapShape playback x4 analog_only = (refl, refl, omega arith)

-- The decoder finds in a payload of the size that the stream is set up with as many frames as a full
-- packet has, in every speed and mode.
pub frames_in_payload-packet_payload_bytes :
    (s : Speed) (m : BwLimit)
    → frames_in_payload (packet_payload_bytes s m) (pcm_channels s m) ≡ frames_per_packet s
unfolding frames_in_payload packet_payload_bytes frames_per_packet pcm_channels analog_channels
    spdif_channels adat_channels adat_base
frames_in_payload-packet_payload_bytes x1 send_all = refl
frames_in_payload-packet_payload_bytes x1 no_adat2 = refl
frames_in_payload-packet_payload_bytes x1 analog_spdif = refl
frames_in_payload-packet_payload_bytes x1 analog_only = refl
frames_in_payload-packet_payload_bytes x2 send_all = refl
frames_in_payload-packet_payload_bytes x2 no_adat2 = refl
frames_in_payload-packet_payload_bytes x2 analog_spdif = refl
frames_in_payload-packet_payload_bytes x2 analog_only = refl
frames_in_payload-packet_payload_bytes x4 send_all = refl
frames_in_payload-packet_payload_bytes x4 no_adat2 = refl
frames_in_payload-packet_payload_bytes x4 analog_spdif = refl
frames_in_payload-packet_payload_bytes x4 analog_only = refl

-- The groups cover the channels from `k` up to before `n`, without a gap, and none is empty.
pub Runs : ℕ → List ChannelGroup → ℕ → Type 0
Runs k [] n = k ≡ n
Runs k (g ∷ gs) n = (g.start ≡ k) × (0 < g.count) × Runs (k + g.count) gs n

repeat : ℕ → GroupName → List GroupName
repeat zero g = []
repeat (suc n) g = g ∷ repeat n g

-- The group of each channel, read off the groups.
unfoldable pub names_of : List ChannelGroup → List GroupName
unfolding repeat
names_of [] = []
names_of (g ∷ gs) = repeat g.count g.name ++ names_of gs

same_name-eq : (a b : GroupName) → same_name a b ≡ true → a ≡ b
unfolding same_name
same_name-eq mic_group mic_group h = refl
same_name-eq analog_group analog_group h = refl
same_name-eq phones_group phones_group h = refl
same_name-eq spdif_group spdif_group h = refl
same_name-eq adat_group adat_group h = refl
same_name-eq _ _ h = ground arith

repeat-last_suc : (n : ℕ) (g : GroupName) → repeat (suc n) g ≡ repeat n g ++ (g ∷ [])
unfolding repeat
repeat-last_suc zero g = refl
repeat-last_suc (suc n) g = ap (λ r. g ∷ r) (repeat-last_suc n g)

repeat-last : (n : ℕ) (g : GroupName) → repeat (n + 1) g ≡ repeat n g ++ (g ∷ [])
repeat-last n g = ap (λ m. repeat m g) (omega arith) ∙ repeat-last_suc n g

Runs-none : Runs 1 [] 1
unfolding Runs
Runs-none = refl

-- One channel more: it is the next one of the cover.
Runs-add_channel :
    (gs : List ChannelGroup) (k i : ℕ) (g : GroupName)
    → Runs k gs (i + 1)
    → Runs k (add_channel gs i g) (i + 1 + 1)
unfolding add_channel Runs
Runs-add_channel [] k i g h = (sym h, omega arith, omega arith)
Runs-add_channel (x ∷ []) k i g h = elim (Bool-cases (same_name x.name g)) [
  | inl e ↦ rw e (h.0, omega arith, ground arith)
  | inr e ↦ rw e (h.0, h.1, (sym h.2, omega arith, omega arith))
]
Runs-add_channel (x ∷ y ∷ r) k i g h = (h.0, h.1, Runs-add_channel (y ∷ r) (k + x.count) i g h.2)

names_of-add_channel :
    (gs : List ChannelGroup) (i : ℕ) (g : GroupName)
    → names_of (add_channel gs i g) ≡ names_of gs ++ (g ∷ [])
unfolding names_of add_channel repeat
names_of-add_channel [] i g = refl
names_of-add_channel (x ∷ []) i g = elim (Bool-cases (same_name x.name g)) [
  | inl e ↦ rw e (
      append-nil (repeat (x.count + 1) x.name)
      ∙ repeat-last x.count x.name
      ∙ ap₂ (λ l h. l ++ (h ∷ [])) (sym (append-nil (repeat x.count x.name)))
          (same_name-eq x.name g e))
  | inr e ↦ rw e (ap (λ l. l ++ (g ∷ [])) (sym (append-nil (repeat x.count x.name))))
]
names_of-add_channel (x ∷ y ∷ r) i g =
    ap (λ l. repeat x.count x.name ++ l) (names_of-add_channel (y ∷ r) i g)
    ∙ sym (append_assoc (repeat x.count x.name) (names_of (y ∷ r)) (g ∷ []))

-- The groups after the loop cover the channels that it went through, and name their groups.
add_channels-Covers :
    (cs : List ChannelSlot) (gs : List ChannelGroup) (i : ℕ)
    → Runs 1 gs (i + 1)
    → Runs 1 (add_channels gs i cs) (i + length cs + 1)
      × (names_of (add_channels gs i cs) ≡ names_of gs ++ map channel_group_name cs)
unfolding add_channels
add_channels-Covers [] gs i h =
    (subst (λ n. Runs 1 gs n) (omega arith) h, sym (append-nil (names_of gs)))
add_channels-Covers (c ∷ cs) gs i h =
    let ih =
      add_channels-Covers cs (add_channel gs i (channel_group_name c)) (i + 1)
        (Runs-add_channel gs 1 i (channel_group_name c) h) in
    (
      subst (λ n. Runs 1 (add_channels (add_channel gs i (channel_group_name c)) (i + 1) cs) n)
          (omega arith) ih.0,
      ih.1
          ∙ ap (λ l. l ++ map channel_group_name cs)
              (names_of-add_channel gs i (channel_group_name c))
          ∙ append_assoc (names_of gs) (channel_group_name c ∷ []) (map channel_group_name cs),
    )

-- The groups cover the channels of the map: the first starts at channel 1, each starts where the one
-- before it ends, none is empty, the last ends at the last of the stream's channels, and each channel
-- lies in the group of its name. In every direction, speed and mode.
pub channel_groups-Covers :
    (d : Direction) (s : Speed) (m : BwLimit)
    → Runs 1 (channel_groups d s m) (pcm_channels s m + 1)
      × (names_of (channel_groups d s m) ≡ map channel_group_name (channel_map d s m))
unfolding channel_groups names_of
channel_groups-Covers d s m =
    let all = add_channels-Covers (channel_map d s m) [] 0 Runs-none in
    (
      subst (λ n. Runs 1 (channel_groups d s m) (n + 1))
          (omega (arith, (channel_map-MapShape d s m).0)) all.0,
      all.1,
    )
