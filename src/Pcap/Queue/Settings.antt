-- ===== src/Pcap/Queue/Settings.antt =====
-- The members of UserData that neither the callback nor timingForPacket writes.
use timing_proxy.Base.{
  ℕ, ◌≡◌, refl, sym, ap, ◌∙◌, Bool, true, false, List, Option, Outcome, ok, >>=-returned,
  ok-injective, Bool-cases, Option-cases, inl, inr, or_fault, get_elem?, ◌==◌, if◌then◌else◌,
}
use timing_proxy.Timing.Timeval.{Timeval}
use timing_proxy.Pcap.Packets.{PacketDirection}
use timing_proxy.Pcap.UserData.{
  UserData, claim_slot, fill_slot, buffer, bool_eq, shared_buffer_size, turned,
}
use timing_proxy.Pcap.Reader.{poll, caught_up, buffer_done}

-- The type of the link, the remote host and port, and whether the loop is to stop.
abbrev pub settings : UserData → ℕ × List ℕ × ℕ × Bool
settings u = (u.linktype, u.remote_host, u.remote_port, u.stop_loop)

either-settings :
    (b : Bool) (u x y : UserData)
    → settings x ≡ settings u
    → settings y ≡ settings u
    → settings (if b then x else y) ≡ settings u
either-settings true u x y one two = one
either-settings false u x y one two = two

pub claim_slot-settings : (u u' : UserData) → claim_slot u ≡ ok u' → settings u' ≡ settings u
unfolding claim_slot
claim_slot-settings u u' h =
    elim (Bool-cases (u.shared_buffer_index_producer == shared_buffer_size)) [
      | inl full ↦ elim (Bool-cases (bool_eq u.active_buffer_producer u.active_buffer_consumer)) [
        | inl left ↦ ap settings (sym (ok-injective {a = turned u} (rw (full, left) at h)))
        | inr held ↦ cc (rw (full, held) at h)
      ]
      | inr room ↦ ap settings (sym (ok-injective {a = u} (rw room at h)))
    ]

pub fill_slot-settings :
    (u : UserData) (bytes : List ℕ) (size : ℕ) (direction : PacketDirection) (timing : Timeval)
    (u' : UserData)
    → fill_slot u bytes size direction timing ≡ ok u'
    → settings u' ≡ settings u
unfolding fill_slot
fill_slot-settings u bytes size direction timing u' h =
    let (old, e, h1) =
      >>=-returned
        (or_fault (get_elem? (buffer u u.active_buffer_producer) u.shared_buffer_index_producer)) _
        h in
    ap settings (sym (ok-injective h1)) ∙ either-settings u.active_buffer_producer u _ _ refl refl

-- The state that a round of timingForPacket leaves, if it leaves one.
abbrev pub SettingsKept : UserData → Outcome (Option Timeval × UserData) → Type 0
SettingsKept u (ok r) = settings r.1 ≡ settings u
SettingsKept u _ = Unit {0}

pub poll-settings :
    (buf : List ℕ) (buflen : ℕ) (direction : PacketDirection) (u : UserData)
    → SettingsKept u (poll buf buflen direction u)
unfolding poll
poll-settings buf buflen direction u = elim (Bool-cases (caught_up u)) [
  | inl e ↦ rw e refl
  | inr e ↦ elim (Bool-cases (buffer_done u)) [
    | inl d ↦ rw (e, d) refl
    | inr d ↦
        elim (Option-cases
          (get_elem? (buffer u u.active_buffer_consumer) u.shared_buffer_index_consumer)) [
            | inl missing ↦ rw (e, d, missing) tt
            | inr (candidate, at) ↦ rw (e, d, at) refl
          ]
  ]
]
