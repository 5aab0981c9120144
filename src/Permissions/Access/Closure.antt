-- ===== src/Permissions/Access/Closure.antt =====
-- The dependency rules between object flags: normalising closes upwards, restricting closes
-- downwards.
use salesmaker.Base.{◌↔◌, ◌≡◌, refl, Bool, true, false, ◌||◌, Option, arith}
use mathlib.Core.Bool.{or_assoc}
use salesmaker.Permissions.Access.{
  ObjectAccess, PartialAccess, partial_of, or_false, normalise_object_access,
  restrict_object_access, no_object_access, flags_of, or_object,
}

-- Create and edit need read, delete needs edit, view all needs read, and modify all needs delete
-- and view all.
pub record IsClosed (a : ObjectAccess) : Type 0 where
  pub create_read : a.create ≡ true → a.read ≡ true
  pub edit_read : a.edit ≡ true → a.read ≡ true
  pub delete_edit : a.delete ≡ true → a.edit ≡ true
  pub view_read : a.view_all ≡ true → a.read ≡ true
  pub modify_delete : a.modify_all ≡ true → a.delete ≡ true
  pub modify_view : a.modify_all ≡ true → a.view_all ≡ true

-- `a` grants no more than `b`.
pub record Below (a b : ObjectAccess) : Type 0 where
  pub read : a.read ≡ true → b.read ≡ true
  pub create : a.create ≡ true → b.create ≡ true
  pub edit : a.edit ≡ true → b.edit ≡ true
  pub delete : a.delete ≡ true → b.delete ≡ true
  pub view_all : a.view_all ≡ true → b.view_all ≡ true
  pub modify_all : a.modify_all ≡ true → b.modify_all ≡ true

pub normalise-IsClosed : (p : PartialAccess) → IsClosed (normalise_object_access p)
unfolding normalise_object_access
normalise-IsClosed p = ground arith

pub restrict-IsClosed : (a : ObjectAccess) → IsClosed (restrict_object_access a)
unfolding restrict_object_access
restrict-IsClosed a = ground arith

pub restrict-Below : (a : ObjectAccess) → Below (restrict_object_access a) a
unfolding restrict_object_access
restrict-Below a = ground arith

-- The flags that a partial access sets.
abbrev pub given : PartialAccess → ObjectAccess
given p = record {
  read = or_false p.read;
  create = or_false p.create;
  edit = or_false p.edit;
  delete = or_false p.delete;
  view_all = or_false p.view_all;
  modify_all = or_false p.modify_all;
}

-- Normalising adds the least that the dependency rules ask for: the result is closed, and it lies
-- below just those closed accesses that hold every flag that was set.
pub normalise_least :
    (p : PartialAccess) (b : ObjectAccess)
    → IsClosed b
    → IsClosed (normalise_object_access p)
      × (Below (given p) b ↔ Below (normalise_object_access p) b)
unfolding normalise_object_access
normalise_least p b c = (normalise-IsClosed p, (λ h. ground arith, λ h. ground arith))

-- Restricting keeps the most that the dependency rules allow: the result is closed, and it lies
-- above just those closed accesses that lie below the access that it came from.
pub restrict_greatest :
    (a b : ObjectAccess)
    → IsClosed b
    → IsClosed (restrict_object_access a) × (Below b a ↔ Below b (restrict_object_access a))
unfolding restrict_object_access
restrict_greatest a b c = (restrict-IsClosed a, (λ h. ground arith, λ h. ground arith))

pub normalise_of_IsClosed :
    (a : ObjectAccess) → IsClosed a → normalise_object_access (partial_of a) ≡ a
unfolding normalise_object_access
normalise_of_IsClosed a c = ground arith

pub restrict_of_IsClosed : (a : ObjectAccess) → IsClosed a → restrict_object_access a ≡ a
unfolding restrict_object_access
restrict_of_IsClosed a c = ground arith

-- The union of two accesses.
unfoldable pub join : ObjectAccess → ObjectAccess → ObjectAccess
join a b = record {
  read = a.read || b.read;
  create = a.create || b.create;
  edit = a.edit || b.edit;
  delete = a.delete || b.delete;
  view_all = a.view_all || b.view_all;
  modify_all = a.modify_all || b.modify_all;
}

pub join_assoc : (a b c : ObjectAccess) → join (join a b) c ≡ join a (join b c)
unfolding join
join_assoc a b c = λ i. record {
  read = or_assoc a.read b.read c.read i;
  create = or_assoc a.create b.create c.create i;
  edit = or_assoc a.edit b.edit c.edit i;
  delete = or_assoc a.delete b.delete c.delete i;
  view_all = or_assoc a.view_all b.view_all c.view_all i;
  modify_all = or_assoc a.modify_all b.modify_all c.modify_all i;
}

or_false_right : (b : Bool) → (b || false) ≡ b
or_false_right true = refl
or_false_right false = refl

pub join-none : (a : ObjectAccess) → join a no_object_access ≡ a
unfolding join
join-none a = λ i. record {
  read = or_false_right a.read i;
  create = or_false_right a.create i;
  edit = or_false_right a.edit i;
  delete = or_false_right a.delete i;
  view_all = or_false_right a.view_all i;
  modify_all = or_false_right a.modify_all i;
}

or_mono :
    (a b c d : Bool)
    → (a ≡ true → c ≡ true)
    → (b ≡ true → d ≡ true)
    → (a || b) ≡ true
    → (c || d) ≡ true
or_mono a b c d h k e = ground arith

or_left : (a b : Bool) → a ≡ true → (a || b) ≡ true
or_left a b h = ground arith

or_right : (a b : Bool) → b ≡ true → (a || b) ≡ true
or_right a b h = ground arith

pub join-IsClosed : {a b : ObjectAccess} → IsClosed a → IsClosed b → IsClosed (join a b)
unfolding join
join-IsClosed {a} {b} c d = record {
  create_read = or_mono a.create b.create a.read b.read c.create_read d.create_read;
  edit_read = or_mono a.edit b.edit a.read b.read c.edit_read d.edit_read;
  delete_edit = or_mono a.delete b.delete a.edit b.edit c.delete_edit d.delete_edit;
  view_read = or_mono a.view_all b.view_all a.read b.read c.view_read d.view_read;
  modify_delete =
      or_mono a.modify_all b.modify_all a.delete b.delete c.modify_delete d.modify_delete;
  modify_view = or_mono a.modify_all b.modify_all a.view_all b.view_all c.modify_view d.modify_view;
}

pub Below-join_left : (a b : ObjectAccess) → Below a (join a b)
unfolding join
Below-join_left a b = record {
  read = or_left a.read b.read;
  create = or_left a.create b.create;
  edit = or_left a.edit b.edit;
  delete = or_left a.delete b.delete;
  view_all = or_left a.view_all b.view_all;
  modify_all = or_left a.modify_all b.modify_all;
}

pub Below-join_right : (a b : ObjectAccess) → Below b (join a b)
unfolding join
Below-join_right a b = record {
  read = or_right a.read b.read;
  create = or_right a.create b.create;
  edit = or_right a.edit b.edit;
  delete = or_right a.delete b.delete;
  view_all = or_right a.view_all b.view_all;
  modify_all = or_right a.modify_all b.modify_all;
}

pub Below-trans : {a b c : ObjectAccess} → Below a b → Below b c → Below a c
Below-trans h k = record {
  read = λ e. k.read (h.read e);
  create = λ e. k.create (h.create e);
  edit = λ e. k.edit (h.edit e);
  delete = λ e. k.delete (h.delete e);
  view_all = λ e. k.view_all (h.view_all e);
  modify_all = λ e. k.modify_all (h.modify_all e);
}

pub none-join : (a : ObjectAccess) → join no_object_access a ≡ a
unfolding join
none-join a = refl

pub or_object-join : (a b : Option ObjectAccess) → or_object a b ≡ join (flags_of a) (flags_of b)
unfolding or_object join
or_object-join a b = refl

pub no_access-IsClosed : IsClosed no_object_access
no_access-IsClosed = ground arith
