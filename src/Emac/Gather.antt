-- ===== src/Emac/Gather.antt =====
-- What the gathering branch of irq_enet makes of a frame and its next fragment.
use lpc17xx_network.Base.{
  leb, true, false, ℕ, zero, suc, ◌+◌, ◌≤◌, ◌<◌, ◌≡◌, refl, sym, ◌∙◌, ap, arith, List, [], ◌∷◌,
  ◌++◌, length, take, drop, length-append, length-take, length-drop, append-nil, append_assoc,
}
use lpc17xx_network.Base.Run.{ok, fault}
use lpc17xx_network.Emac.{copy_to, gather}

le→leb : (a b : ℕ) → a ≤ b → leb a b ≡ true
le→leb a b h = ground arith

gt→leb : (a b : ℕ) → b < a → leb a b ≡ false
gt→leb a b h = ground arith

drop-length : (n : ℕ) (xs : List ℕ) → length xs ≤ n → drop n xs ≡ []
drop-length zero [] h = refl
drop-length (suc n) [] h = refl
drop-length zero (x ∷ xs) h = absurd (omega arith)
drop-length (suc n) (x ∷ xs) h = drop-length n xs (omega arith)

take_of_append : (xs ys : List ℕ) → take (length xs) (xs ++ ys) ≡ xs
take_of_append [] ys = refl
take_of_append (x ∷ xs) ys = ap (λ l. x ∷ l) (take_of_append xs ys)

take-take_append : (n : ℕ) (xs ys : List ℕ) → n ≤ length xs → take n (xs ++ ys) ≡ take n xs
take-take_append zero xs ys h = refl
take-take_append (suc n) [] ys h = absurd (omega arith)
take-take_append (suc n) (x ∷ xs) ys h = ap (λ l. x ∷ l) (take-take_append n xs ys (omega arith))

take_two :
    (n : ℕ) (xs ys zs : List ℕ)
    → length xs ≡ n
    → length ys ≡ n
    → take (n + n) (xs ++ (ys ++ zs)) ≡ xs ++ ys
take_two n xs ys zs p q =
    let both : n + n ≡ length (xs ++ ys) = omega (arith, length-append xs ys) in
    ap (λ m. take m (xs ++ (ys ++ zs))) both
    ∙ ap (take (length (xs ++ ys))) (sym (append_assoc xs ys zs))
    ∙ take_of_append (xs ++ ys) zs

-- When a received fragment is as long as the frame gathered so far, the new block holds the frame
-- followed by the fragment.
pub gather-append :
    (block current_frame frag : List ℕ)
    → length block ≡ length current_frame + length frag
    → length frag ≡ length current_frame
    → gather block current_frame frag ≡ ok (current_frame ++ frag)
unfolding gather copy_to
gather-append block current_frame frag sized same =
    let rest = drop (0 + length current_frame) block in
    rw (le→leb (length frag + length frag) (length block) (omega arith), same)
      (ap
          (λ l. ok (
            l
            ++ (frag
                ++ drop (length current_frame + length current_frame) (current_frame ++ rest))))
          (take_of_append current_frame rest)
        ∙ ap (λ l. ok (current_frame ++ (frag ++ l)))
            (drop-length _ (current_frame ++ rest) (
              omega (
                arith,
                length-append current_frame rest,
                length-drop (0 + length current_frame) block,
              )))
        ∙ ap (λ l. ok (current_frame ++ l)) (append-nil frag))

-- When a received fragment is no longer than the frame gathered so far, it is placed at its own
-- length, over the bytes of the frame that stand there.
pub gather_shorter :
    (block current_frame frag : List ℕ)
    → length block ≡ length current_frame + length frag
    → length frag ≤ length current_frame
    → (frame : List ℕ) × (gather block current_frame frag ≡ ok frame)
      × (take (length frag + length frag) frame ≡ take (length frag) current_frame ++ frag)
unfolding gather copy_to
gather_shorter block current_frame frag sized short =
    let n = length frag in
    let rest = drop (0 + length current_frame) block in
    let joined = current_frame ++ rest in
    (
      take n joined ++ (frag ++ drop (n + n) joined),
      rw (gather, le→leb (length frag + length frag) (length block) (omega arith)) refl,
      take_two n (take n joined) frag (drop (n + n) joined)
            (omega (arith, length-take n joined, length-append current_frame rest)) refl
          ∙ ap (λ l. l ++ frag) (take-take_append n current_frame rest short),
    )

-- When a received fragment is longer than the frame gathered so far, the copy runs past the end
-- of the new block.
pub gather_longer :
    (block current_frame frag : List ℕ)
    → length block ≡ length current_frame + length frag
    → length current_frame < length frag
    → gather block current_frame frag ≡ fault
unfolding gather
gather_longer block current_frame frag sized long =
    rw (gather, gt→leb (length frag + length frag) (length block) (omega arith)) refl
