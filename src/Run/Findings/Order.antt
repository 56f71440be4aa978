-- ===== src/Run/Findings/Order.antt =====
-- findings.rs: the orders of the bucket keys and of the groups are lawful.
use Prim.Native.Nat.{Ordering}
use agentchat.Prelude.{◌≡◌, refl, [], ◌∷◌, arith}
use agentchat.Text.{Text}
use agentchat.Protocol.Run.{FindingGroup, category_str}
use agentchat.Run.Findings.Group.{text_cmp, GroupKey, key_cmp, group_cmp}

pub text_cmp-eq : (xs ys : Text) → text_cmp xs ys ≡ Ordering.eq → xs ≡ ys
unfolding text_cmp
text_cmp-eq [] [] h = refl
text_cmp-eq [] (y ∷ ys) h = cc
text_cmp-eq (x ∷ xs) [] h = cc
text_cmp-eq (x ∷ xs) (y ∷ ys) h = ground (arith, text_cmp-eq xs ys)

pub text_cmp_refl : (xs : Text) → text_cmp xs xs ≡ Ordering.eq
unfolding text_cmp
text_cmp_refl [] = refl
text_cmp_refl (x ∷ xs) = ground (arith, text_cmp_refl xs)

-- Comparing the other way round.
abbrev pub flip : Ordering → Ordering
flip Ordering.lt = Ordering.gt
flip Ordering.eq = Ordering.eq
flip Ordering.gt = Ordering.lt

pub text_cmp-flip : (xs ys : Text) → text_cmp ys xs ≡ flip (text_cmp xs ys)
unfolding text_cmp
text_cmp-flip [] [] = refl
text_cmp-flip [] (y ∷ ys) = refl
text_cmp-flip (x ∷ xs) [] = refl
text_cmp-flip (x ∷ xs) (y ∷ ys) = ground (arith, text_cmp-flip xs ys)

pub text_cmp_trans :
    (xs ys zs : Text)
    → text_cmp xs ys ≡ Ordering.lt
    → text_cmp ys zs ≡ Ordering.lt
    → text_cmp xs zs ≡ Ordering.lt
unfolding text_cmp
text_cmp_trans [] [] zs h k = cc
text_cmp_trans [] (y ∷ ys) [] h k = cc
text_cmp_trans [] (y ∷ ys) (z ∷ zs) h k = refl
text_cmp_trans (x ∷ xs) [] zs h k = cc
text_cmp_trans (x ∷ xs) (y ∷ ys) [] h k = cc
text_cmp_trans (x ∷ xs) (y ∷ ys) (z ∷ zs) h k = ground (arith, text_cmp_trans xs ys zs)

pub key_cmp-eq : (j k : GroupKey) → key_cmp j k ≡ Ordering.eq → j ≡ k
unfolding key_cmp
key_cmp-eq (f, b, c) (g, d, e) h = ground (arith, text_cmp-eq f g, text_cmp-eq c e)

pub key_cmp_refl : (k : GroupKey) → key_cmp k k ≡ Ordering.eq
unfolding key_cmp
key_cmp_refl (f, b, c) = ground (arith, text_cmp_refl f, text_cmp_refl c)

pub key_cmp-flip : (j k : GroupKey) → key_cmp k j ≡ flip (key_cmp j k)
unfolding key_cmp
key_cmp-flip (f, b, c) (g, d, e) = ground (arith, text_cmp-flip f g, text_cmp-flip c e)

pub key_cmp_trans :
    (i j k : GroupKey)
    → key_cmp i j ≡ Ordering.lt
    → key_cmp j k ≡ Ordering.lt
    → key_cmp i k ≡ Ordering.lt
unfolding key_cmp
key_cmp_trans (f, a, c) (g, b, d) (h, e, i) p q =
    ground (arith, text_cmp-eq f g, text_cmp-eq g h, text_cmp_trans f g h, text_cmp_trans c d i)

pub group_cmp-flip : (g h : FindingGroup) → group_cmp h g ≡ flip (group_cmp g h)
unfolding group_cmp
group_cmp-flip g h = ground (
  arith,
  text_cmp-flip g.file h.file,
  text_cmp-flip (category_str g.severity) (category_str h.severity),
)
