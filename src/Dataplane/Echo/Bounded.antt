-- ===== src/Dataplane/Echo/Bounded.antt =====
-- One flow for each key, with a bounded queue.
use tailjump.Prelude.{
  ◌≤◌, ◌≡◌, refl, ap, false, ◌||◌, not, Option, none, some, List, [], ◌∷◌, length, length-append,
  ltb, ltb→lt, All, arith, Bool-cases, inl, inr,
}
use tailjump.Prelude.{sym, ◌∙◌, subst}
use tailjump.Text.{Text, text_eq, text_eq_iff, text_eq_refl}
use tailjump.Net.{Addr, invalid, v4, v6, addr_eq}
use tailjump.Dataplane.Packet.{Headers, EchoKey, EchoRequest, parse_echo_request}
use tailjump.Dataplane.Echo.{
  EchoFlow, EchoState, EchoEvent, packet, written, ended, no_socket, closed, key_eq, push, new_flow,
  send, captured, capture_echo, taken, take_request, drop_echo_flow, step, run,
}

-- No flow of the list has the key.
abbrev pub Absent : EchoKey → List EchoFlow → Type 0
Absent key = All (λ f. key_eq f.key key ≡ false)

abbrev pub Flows : List EchoFlow → Type 0
Flows [] = Unit
Flows (f ∷ flows) = (length f.queue ≤ 64) × Absent f.key flows × Flows flows

push-key : (req : EchoRequest) (f : EchoFlow) → (push req f).key ≡ f.key
unfolding push
push-key req f = elim (Bool-cases (ltb (length f.queue) 64)) [
  | inl e ↦ rw e refl
  | inr e ↦ rw e refl
]

push_bounded :
    (req : EchoRequest) (f : EchoFlow) → length f.queue ≤ 64 → length (push req f).queue ≤ 64
unfolding push
push_bounded req f h = elim (Bool-cases (ltb (length f.queue) 64)) [
  | inl e ↦ rw e (omega (arith, length-append f.queue (req ∷ []), ltb→lt (length f.queue) 64 e))
  | inr e ↦ rw e h
]

text_eq_sym : (s t : Text) → text_eq s t ≡ text_eq t s
text_eq_sym s t = elim (Bool-cases (text_eq s t)) [
  | inl e ↦ e ∙ sym (ap (λ u. text_eq u s) (sym ((text_eq_iff s t).0 e)) ∙ text_eq_refl s)
  | inr e ↦ elim (Bool-cases (text_eq t s)) [
    | inr d ↦ e ∙ sym d
    | inl d ↦ e ∙ absurd (ground (arith, (text_eq_iff t s).0 d, (text_eq_iff s t).1))
  ]
]

addr_eq_sym : (a b : Addr) → addr_eq a b ≡ addr_eq b a
unfolding addr_eq
addr_eq_sym invalid invalid = refl
addr_eq_sym invalid (v4 n) = refl
addr_eq_sym invalid (v6 n zone) = refl
addr_eq_sym (v4 m) invalid = refl
addr_eq_sym (v4 m) (v4 n) = ground arith
addr_eq_sym (v4 m) (v6 n zone) = refl
addr_eq_sym (v6 m zone) invalid = refl
addr_eq_sym (v6 m zone) (v4 n) = refl
addr_eq_sym (v6 m zone) (v6 n zone') = ground (arith, text_eq_sym zone zone')

key_eq_sym : (k l : EchoKey) → key_eq k l ≡ key_eq l k
unfolding key_eq
key_eq_sym k l = ground (arith, addr_eq_sym k.dst l.dst)

Absent-send :
    (k key : EchoKey) (req : EchoRequest) (flows : List EchoFlow)
    → key_eq key k ≡ false
    → Absent k flows
    → Absent k (send key req flows)
unfolding send
Absent-send k key req [] d h = (ap (λ l. key_eq l k) (push-key req (new_flow key)) ∙ d, tt)
Absent-send k key req (f ∷ flows) d h = elim (Bool-cases (key_eq f.key key)) [
  | inl e ↦ rw e (ap (λ l. key_eq l k) (push-key req f) ∙ h.0, h.1)
  | inr e ↦ rw e (h.0, Absent-send k key req flows d h.1)
]

Flows-send :
    (key : EchoKey) (req : EchoRequest) (flows : List EchoFlow)
    → Flows flows
    → Flows (send key req flows)
unfolding send
Flows-send key req [] h = (push_bounded req (new_flow key) (omega arith), tt, tt)
Flows-send key req (f ∷ flows) (l, a, h) = elim (Bool-cases (key_eq f.key key)) [
  | inl e ↦ rw e (push_bounded req f l, subst (λ k. Absent k flows) (sym (push-key req f)) a, h)
  | inr e ↦
      rw e (
        l,
        Absent-send f.key key req flows (key_eq_sym key f.key ∙ e) a,
        Flows-send key req flows h,
      )
]

taken_key : (f : EchoFlow) (queue : List EchoRequest) → (taken f queue).key ≡ f.key
taken_key f [] = refl
taken_key f (req ∷ queue) = refl

taken_bounded :
    (f : EchoFlow) (queue : List EchoRequest)
    → f.queue ≡ queue
    → length f.queue ≤ 64
    → length (taken f queue).queue ≤ 64
taken_bounded f [] e h = h
taken_bounded f (req ∷ queue) e h = omega (arith, ap length e)

Absent-take_request :
    (k key : EchoKey) (flows : List EchoFlow) → Absent k flows → Absent k (take_request key flows)
unfolding take_request
Absent-take_request k key [] h = tt
Absent-take_request k key (f ∷ flows) h = elim (Bool-cases (key_eq f.key key)) [
  | inl e ↦ rw e (ap (λ l. key_eq l k) (taken_key f f.queue) ∙ h.0, h.1)
  | inr e ↦ rw e (h.0, Absent-take_request k key flows h.1)
]

Flows-take_request :
    (key : EchoKey) (flows : List EchoFlow) → Flows flows → Flows (take_request key flows)
unfolding take_request
Flows-take_request key [] h = tt
Flows-take_request key (f ∷ flows) (l, a, h) = elim (Bool-cases (key_eq f.key key)) [
  | inl e ↦
      rw e (
        taken_bounded f f.queue refl l,
        subst (λ k. Absent k flows) (sym (taken_key f f.queue)) a,
        h,
      )
  | inr e ↦ rw e (l, Absent-take_request f.key key flows a, Flows-take_request key flows h)
]

Absent-drop_echo_flow :
    (k key : EchoKey) (flows : List EchoFlow) → Absent k flows → Absent k (drop_echo_flow key flows)
unfolding drop_echo_flow
Absent-drop_echo_flow k key [] h = tt
Absent-drop_echo_flow k key (f ∷ flows) h = elim (Bool-cases (key_eq f.key key)) [
  | inl e ↦ rw e h.1
  | inr e ↦ rw e (h.0, Absent-drop_echo_flow k key flows h.1)
]

Flows-drop_echo_flow :
    (key : EchoKey) (flows : List EchoFlow) → Flows flows → Flows (drop_echo_flow key flows)
unfolding drop_echo_flow
Flows-drop_echo_flow key [] h = tt
Flows-drop_echo_flow key (f ∷ flows) (l, a, h) = elim (Bool-cases (key_eq f.key key)) [
  | inl e ↦ rw e h
  | inr e ↦ rw e (l, Absent-drop_echo_flow f.key key flows a, Flows-drop_echo_flow key flows h)
]

captured-Flows :
    (s : EchoState) (o : Option (EchoKey × EchoRequest))
    → Flows s.flows
    → Flows (captured s o).0.flows
captured-Flows s none h = h
captured-Flows s (some e) h = elim (Bool-cases (not s.set_icmp || s.unsupported)) [
  | inl p ↦ rw p h
  | inr p ↦ rw p (Flows-send e.0 e.1 s.flows h)
]

step-Flows :
    (h : Headers) (e : EchoEvent) (s : EchoState) → Flows s.flows → Flows (step h e s).flows
unfolding capture_echo
step-Flows h (packet pkt) s v = captured-Flows s (parse_echo_request h pkt) v
step-Flows h (written key) s v = Flows-take_request key s.flows v
step-Flows h (ended key) s v = Flows-drop_echo_flow key s.flows v
step-Flows h no_socket s v = v
step-Flows h closed s v = tt

-- Whatever the pump and the goroutines do, the netstack has one flow at most for each destination and
-- identifier, and no flow holds more than 64 requests.
pub run-Flows :
    (h : Headers) (events : List EchoEvent) (s : EchoState)
    → Flows s.flows
    → Flows (run h events s).flows
unfolding run
run-Flows h [] s v = v
run-Flows h (e ∷ events) s v = run-Flows h events (step h e s) (step-Flows h e s v)
