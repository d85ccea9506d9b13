-- ===== src/Kernel/Forest/Same.antt =====
-- The calls that leave the processes as they are: those on descriptors and on memory, and the messages.
use linux_operating_system.Prelude.{
  ℕ, ◌+◌, ◌<◌, ◌≡◌, refl, sym, ap, ◌∙◌, subst, inl, inr, some, List, [], ◌==◌, ==_iff, Bool-cases,
  bind_some, some_injective, Memory,
}
use linux_operating_system.Kernel.{Fd, Pcb, Kernel, with_mem, with_pcb, with_fd, tell, say}
use linux_operating_system.Kernel.Process.{pid_to_pcb_addr}
use linux_operating_system.Kernel.Forest.{IsTree, IsForest}
use linux_operating_system.Kernel.Forest.Stacks.{Stacks}
use linux_operating_system.Terminal.{Term}
use linux_operating_system.Terminal.Print.{terminal_printf}
use linux_operating_system.Terminal.Frame.{KeepsPlace}
use linux_operating_system.Terminal.Frame.Runs.{terminal_printf-KeepsPlace}

pub record SameBlock (p p' : Pcb) : Type 0 where
  pub id : p'.p_id ≡ p.p_id
  pub parent : p'.parent ≡ p.parent
  pub parent_id : p'.parent_p_id ≡ p.parent_p_id
  pub stack : p'.esp0 ≡ p.esp0

pub record SameTree (k k' : Kernel) : Type 0 where
  pub curr : k'.term.curr_term ≡ k.term.curr_term
  pub turn : k'.pit_counter ≡ k.pit_counter
  pub total : k'.total_progs ≡ k.total_progs
  pub next : k'.next_p_id ≡ k.next_p_id
  pub blocks : (a : ℕ) → SameBlock (k.pcbs a) (k'.pcbs a)

-- Nor do they change what the processor runs.
pub record SameForest (k k' : Kernel) : Type 0 where
  pub tree : SameTree k k'
  pub slots : k'.active_progs ≡ k.active_progs
  pub block : k'.curr_pcb_ptr ≡ k.curr_pcb_ptr
  pub pages : k'.page_directory ≡ k.page_directory
  pub stack : k'.tss_esp0 ≡ k.tss_esp0

pub SameBlock-refl : (p : Pcb) → SameBlock p p
SameBlock-refl p = record { id = refl; parent = refl; parent_id = refl; stack = refl }

pub SameForest-refl : (k : Kernel) → SameForest k k
SameForest-refl k = record {
  tree = record {
    curr = refl;
    turn = refl;
    total = refl;
    next = refl;
    blocks = λ a. SameBlock-refl _;
  };
  slots = refl;
  block = refl;
  pages = refl;
  stack = refl;
}

pub SameTree-trans : (k l m : Kernel) → SameTree k l → SameTree l m → SameTree k m
SameTree-trans k l m v w = record {
  curr = w.curr ∙ v.curr;
  turn = w.turn ∙ v.turn;
  total = w.total ∙ v.total;
  next = w.next ∙ v.next;
  blocks = λ a.
      let x = v.blocks a in
      let y = w.blocks a in
      record {
        id = y.id ∙ x.id;
        parent = y.parent ∙ x.parent;
        parent_id = y.parent_id ∙ x.parent_id;
        stack = y.stack ∙ x.stack;
      };
}

pub SameForest-trans : (k l m : Kernel) → SameForest k l → SameForest l m → SameForest k m
SameForest-trans k l m v w = record {
  tree = SameTree-trans k l m v.tree w.tree;
  slots = w.slots ∙ v.slots;
  block = w.block ∙ v.block;
  pages = w.pages ∙ v.pages;
  stack = w.stack ∙ v.stack;
}

pub SameTree-IsTree : (k k' : Kernel) → SameTree k k' → IsTree k → IsTree k'
SameTree-IsTree k k' s v = record {
  running = rw s.curr v.running;
  turn = rw s.turn v.turn;
  total = s.total ∙ v.total ∙ ap (λ (n : Memory). n 0 + n 1 + n 2) (sym s.next);
  few = rw s.total v.few;
  blocks = λ t i ht hi.
      let b = v.blocks t i ht (subst (λ (n : Memory). i < n t) s.next hi) in
      let c = s.blocks (pid_to_pcb_addr t i) in
      record {
        id = c.id ∙ b.id;
        parent = c.parent ∙ b.parent;
        parent_id = c.parent_id ∙ b.parent_id;
        stack = c.stack ∙ b.stack;
      };
}

pub SameForest-IsForest : (k k' : Kernel) → SameForest k k' → IsForest k → IsForest k'
SameForest-IsForest k k' s v =
    let n : k'.next_p_id k'.term.curr_term ≡ k.next_p_id k.term.curr_term =
      ap (λ (f : Memory). f k'.term.curr_term) s.tree.next ∙ ap k.next_p_id s.tree.curr in
    record {
      tree = SameTree-IsTree k k' s.tree v.tree;
      slots = λ t h. rw (s.slots, s.tree.next) (v.slots t h);
      block = s.block ∙ rw (n, s.tree.curr) v.block;
      page = λ z. rw (n, s.tree.curr, s.pages) (v.page (λ e. z (n ∙ e)));
      stack = λ z. rw (n, s.tree.curr, s.stack) (v.stack (λ e. z (n ∙ e)));
    }

abbrev pub view : Kernel → Stacks
view k = record { depth = k.next_p_id; running = k.term.curr_term }

pub SameTree-view : (k k' : Kernel) → SameTree k k' → view k' ≡ view k
SameTree-view k k' s i = record { depth = s.next i; running = s.curr i }

-- A change of the terminal's state, of the memory or of the descriptors of the current process.
pub term-SameForest :
    (k : Kernel) (t : Term) → KeepsPlace k.term t → SameForest k (record k { term = t })
term-SameForest k t v = record {
  tree = record {
    curr = v.curr;
    turn = refl;
    total = refl;
    next = refl;
    blocks = λ a. SameBlock-refl (k.pcbs a);
  };
  slots = refl;
  block = refl;
  pages = refl;
  stack = refl;
}

pub mem-SameForest : (k : Kernel) (m : Memory) → SameForest k (with_mem k m)
mem-SameForest k m =
    term-SameForest k (record k.term { mem = m })
      (record { curr = refl; disp = refl; buffers = refl })

pub pcb-SameForest :
    (k : Kernel) (a : ℕ) (p : Pcb) → SameBlock (k.pcbs a) p → SameForest k (with_pcb k a p)
pcb-SameForest k a p v = record {
  tree = record {
    curr = refl;
    turn = refl;
    total = refl;
    next = refl;
    blocks = λ b. elim (Bool-cases (b == a)) [
      | inl e ↦
          let q : b ≡ a = (==_iff b a).0 e in rw e (subst (λ c. SameBlock (k.pcbs c) p) (sym q) v)
      | inr e ↦ rw e (SameBlock-refl (k.pcbs b))
    ];
  };
  slots = refl;
  block = refl;
  pages = refl;
  stack = refl;
}

pub fd-SameForest : (k : Kernel) (fd : ℕ) (f : Fd) → SameForest k (with_fd k fd f)
fd-SameForest k fd f =
    pcb-SameForest k k.curr_pcb_ptr _
      (record { id = refl; parent = refl; parent_id = refl; stack = refl })

pub tell-SameForest :
    (format args : List ℕ) (k k' : Kernel) → tell format args k ≡ some k' → SameForest k k'
unfolding tell
tell-SameForest format args k k' run =
    let ((n, t), q, done) =
      bind_some {A = ℕ × Term} (terminal_printf 40 format args k.term) _ k' run in
    subst (SameForest k) (some_injective _ k' done)
      (term-SameForest k t (terminal_printf-KeepsPlace 40 n format args k.term t q))

pub say-SameForest : (format : List ℕ) (k k' : Kernel) → say format k ≡ some k' → SameForest k k'
unfolding say
say-SameForest format k k' run = tell-SameForest format [] k k' run
