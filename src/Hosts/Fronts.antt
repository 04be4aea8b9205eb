-- ===== src/Hosts/Fronts.antt =====
-- Front parts and parts of lists, and of the messages of a stream.
use uip.Base.{
  All, ℕ, ◌≡◌, refl, sym, ap, ◌∙◌, subst, List, [], ◌∷◌, ◌++◌, append-nil, append_assoc, arith,
  Elem, there, Elem-head, Elem-cons, inl, inr, Bool-cases, length,
}
use uip.Hosts.{Content, is_control, messages, contents}
use uip.Transport.Codec.{ByteBuf, Frame, ping, pong, data_frame}
use uip.Transport.Codec.Stream.{feed, flatten}
use uip.Transport.Codec.Stream.Chunks.{drain_all, drain_all-append, feed-flatten}
use mathlib.Core.List.{Sublistᴰ}
use mathlib.Core.List.Sublistᴰ

-- The first list is what came so far of the second.
abbrev pub Front {ℓ} : {A : Type ℓ} → List A → List A → Type ℓ
Front {A = A} xs ys = (more : List A) × (ys ≡ xs ++ more)

pub front_grows {ℓ} : {A : Type ℓ} (xs ys zs : List A) → Front xs ys → Front ys zs → Front xs zs
front_grows xs ys zs (m, p) (n, q) = (m ++ n, q ∙ ap (λ x. x ++ n) p ∙ append_assoc xs m n)

pub Front-refl {ℓ} : {A : Type ℓ} (xs : List A) → Front xs xs
Front-refl xs = ([], sym (append-nil xs))

-- One more of what is there.
pub front_next {ℓ} :
    {A : Type ℓ} (x : A) (xs ys rest : List A) → ys ≡ xs ++ x ∷ rest → Front (xs ++ x ∷ []) ys
front_next x xs ys rest e = (rest, e ∙ sym (append_assoc xs (x ∷ []) rest))

pub Front-Sublist {ℓ} : {A : Type ℓ} (xs ys : List A) → Front xs ys → Sublistᴰ xs ys
Front-Sublist xs ys (m, e) =
    subst (λ z. Sublistᴰ xs z) (sym e)
      (subst (λ z. Sublistᴰ z (xs ++ m)) (append-nil xs)
        (Sublistᴰ.append (Sublistᴰ.refl xs) (Sublistᴰ.nil-sublist m)))

pub Elem-Sublist {ℓ} :
    {A : Type ℓ} {x : A} {xs ys : List A} → Sublistᴰ xs ys → Elem x xs → Elem x ys
Elem-Sublist Sublistᴰ.slnil e = e
Elem-Sublist (Sublistᴰ.cons h) e = there (Elem-Sublist h e)
Elem-Sublist (Sublistᴰ.cons-cons {a} {b} {l₁} {l₂} p h) e = elim (Elem-cons e) [
  | inl q ↦ Elem-head (q ∙ p)
  | inr f ↦ there (Elem-Sublist h f)
]

pub messages-append : (ms ns : List Content) → messages (ms ++ ns) ≡ messages ms ++ messages ns
messages-append [] ns = refl
messages-append (m ∷ ms) ns = elim (Bool-cases (is_control m.src_port m.dst_port)) [
  | inl e ↦ rw e (messages-append ms ns)
  | inr e ↦ rw e (ap (◌∷◌ m) (messages-append ms ns))
]

contents-append : (fs gs : List Frame) → contents (fs ++ gs) ≡ contents fs ++ contents gs
contents-append [] gs = refl
contents-append (ping ∷ fs) gs = contents-append fs gs
contents-append (pong ∷ fs) gs = contents-append fs gs
contents-append (data_frame s d p ∷ fs) gs =
    ap (◌∷◌ (record { src_port = s; dst_port = d; payload = p })) (contents-append fs gs)

-- The messages of frames.
abbrev pub read : List Frame → List Content
read fs = messages (contents fs)

pub read-append : (fs gs : List Frame) → read (fs ++ gs) ≡ read fs ++ read gs
read-append fs gs =
    ap messages (contents-append fs gs) ∙ messages-append (contents fs) (contents gs)

pub Front-read : (fs gs : List Frame) → Front fs gs → Front (read fs) (read gs)
Front-read fs gs (m, e) = (read m, ap read e ∙ read-append fs m)

pub messages-Sublist :
    (ms ns : List Content) → Sublistᴰ ms ns → Sublistᴰ (messages ms) (messages ns)
messages-Sublist _ _ Sublistᴰ.slnil = Sublistᴰ.slnil
messages-Sublist _ _ (Sublistᴰ.cons {a} {l₁} {l₂} h) =
    elim (Bool-cases (is_control a.src_port a.dst_port)) [
      | inl e ↦ rw e (messages-Sublist l₁ l₂ h)
      | inr e ↦ rw e (Sublistᴰ.cons (messages-Sublist l₁ l₂ h))
    ]
messages-Sublist _ _ (Sublistᴰ.cons-cons {a} {b} {l₁} {l₂} p h) =
    elim (Bool-cases (is_control a.src_port a.dst_port)) [
      | inl e ↦
          rw (e, sym (ap (λ (m : Content). is_control m.src_port m.dst_port) p) ∙ e)
            (messages-Sublist l₁ l₂ h)
      | inr e ↦
          rw (e, sym (ap (λ (m : Content). is_control m.src_port m.dst_port) p) ∙ e)
            (Sublistᴰ.cons-cons p (messages-Sublist l₁ l₂ h))
    ]

pub messages_part : (ms : List Content) → Sublistᴰ (messages ms) ms
messages_part [] = Sublistᴰ.slnil
messages_part (m ∷ ms) = elim (Bool-cases (is_control m.src_port m.dst_port)) [
  | inl e ↦ rw e (Sublistᴰ.cons (messages_part ms))
  | inr e ↦ rw e (Sublistᴰ.cons-cons refl (messages_part ms))
]

pub flatten_snoc : (cs : List (List ℕ)) (c : List ℕ) → flatten (cs ++ c ∷ []) ≡ flatten cs ++ c
flatten_snoc [] c = append-nil c
flatten_snoc (d ∷ cs) c = ap (λ x. d ++ x) (flatten_snoc cs c) ∙ sym (append_assoc d (flatten cs) c)

-- Another chunk gives further frames.
pub feed-Front :
    (bytes : ByteBuf) (cs : List (List ℕ)) (c : List ℕ)
    → Front (feed bytes [] cs).0 (feed bytes [] (cs ++ c ∷ [])).0
feed-Front bytes cs c =
    let whole = drain_all-append bytes (length (flatten cs)) (flatten cs) c (omega arith) in
    (
      (drain_all bytes ((drain_all bytes (flatten cs)).1 ++ c)).0,
      ap (λ p. p.0)
            (feed-flatten bytes (cs ++ c ∷ []) ∙ ap (drain_all bytes) (flatten_snoc cs c) ∙ whole)
          ∙ ap (λ p. p.0 ++ (drain_all bytes ((drain_all bytes (flatten cs)).1 ++ c)).0)
              (sym (feed-flatten bytes cs)),
    )

contents-Sublist : (fs gs : List Frame) → Sublistᴰ fs gs → Sublistᴰ (contents fs) (contents gs)
contents-Sublist _ _ Sublistᴰ.slnil = Sublistᴰ.slnil
contents-Sublist _ _ (Sublistᴰ.cons {a} {l₁} {l₂} h) = skipped a l₁ l₂ (contents-Sublist l₁ l₂ h)
  where
    skipped :
        (a : Frame) (l₁ l₂ : List Frame)
        → Sublistᴰ (contents l₁) (contents l₂)
        → Sublistᴰ (contents l₁) (contents (a ∷ l₂))
    skipped ping l₁ l₂ h = h
    skipped pong l₁ l₂ h = h
    skipped (data_frame s d p) l₁ l₂ h = Sublistᴰ.cons h
contents-Sublist _ _ (Sublistᴰ.cons-cons {a} {b} {l₁} {l₂} p h) =
    subst (λ c. Sublistᴰ (contents (a ∷ l₁)) (contents (c ∷ l₂))) p
      (taken a l₁ l₂ (contents-Sublist l₁ l₂ h))
  where
    taken :
        (a : Frame) (l₁ l₂ : List Frame)
        → Sublistᴰ (contents l₁) (contents l₂)
        → Sublistᴰ (contents (a ∷ l₁)) (contents (a ∷ l₂))
    taken ping l₁ l₂ h = h
    taken pong l₁ l₂ h = h
    taken (data_frame s d p) l₁ l₂ h = Sublistᴰ.cons-cons refl h

pub read-Sublist : (fs gs : List Frame) → Sublistᴰ fs gs → Sublistᴰ (read fs) (read gs)
read-Sublist fs gs h = messages-Sublist _ _ (contents-Sublist fs gs h)

pub All-Sublist {ℓ κ} :
    {A : Type ℓ} (P : A → Type κ) {xs ys : List A} → Sublistᴰ xs ys → All P ys → All P xs
All-Sublist P Sublistᴰ.slnil a = a
All-Sublist P (Sublistᴰ.cons h) a = All-Sublist P h a.1
All-Sublist P (Sublistᴰ.cons-cons p h) a = (subst P (sym p) a.0, All-Sublist P h a.1)

pub All-front {ℓ κ} : {A : Type ℓ} (P : A → Type κ) (xs ys : List A) → All P (xs ++ ys) → All P xs
All-front P [] ys h = tt
All-front P (x ∷ xs) ys h = (h.0, All-front P xs ys h.1)
