-- ===== src/Ledger/Runs.antt =====
-- Everything that happens to a ledger after it is opened, as a relation, and what holds at its end.
use olivechain.Base.{String, true, ◌≡◌, Option, none, lookup, []}
use olivechain.Crypto.{Crypto}
use olivechain.Json.{Floats}
use olivechain.Event.{signing_body}
use olivechain.Registry
use olivechain.Registry.{Registry, Organization}
use olivechain.Result.{ok}
use olivechain.Ledger.{
  Ledger, Body, Submission, of_body, empty, truthy_text, append, commit_prepared,
}
use olivechain.Ledger.Audit.{verify_chain}
use olivechain.Ledger.Audit.Preserved.{
  IsAudited, append-IsAudited, commit_prepared-IsAudited, IsAudited-empty,
}
use olivechain.Ledger.Load.{load}
use olivechain.Ledger.Load.Recovery.{
  IsDurable, IsDurable-empty, load-IsDurable, append-IsDurable, commit_prepared-IsDurable,
}
use olivechain.Ledger.WellFormed.{IsWellFormed, IsWellFormed-empty}
use olivechain.Ledger.WellFormed.Writes.{append-IsWellFormed, commit_prepared-IsWellFormed}

module _ (F : Floats) (C : Crypto) where
  -- A call of a method that writes, successful or not. uuid4 returns no id of the ledger, and a
  -- prepared body comes with a signature that the API has verified.
  pub data Step : Ledger → Ledger → Type 0 where
    appends :
        (s : Submission) (l : Ledger) → lookup s.fresh_id l.by_id ≡ none → Step l (append F C s l).1
    commits :
        (body : Body) (signature : String) (l : Ledger)
        → ((org : Organization)
            → Registry.get body.actor_org l.registry ≡ ok org
            → C.verify_signature org.public_key (signing_body F (of_body body)) signature ≡ true)
        → Step l (commit_prepared F C body signature l).1

  pub data Reach (l : Ledger) : Ledger → Type 0 where
    here : Reach l l
    next : {m n : Ledger} → Reach l m → Step m n → Reach l n

  record IsSafe (l : Ledger) : Type 0 where
    audited : IsAudited F C l
    formed : IsWellFormed l
    durable : IsDurable l

  Step-IsSafe : {l m : Ledger} → Step l m → IsSafe l → IsSafe m
  Step-IsSafe (appends s l fresh) v = record {
    audited = append-IsAudited F C s l v.audited;
    formed = append-IsWellFormed F C s l fresh v.formed;
    durable = append-IsDurable F C s l fresh v.durable;
  }
  Step-IsSafe (commits body signature l verified) v = record {
    audited = commit_prepared-IsAudited F C body signature l verified v.audited;
    formed = commit_prepared-IsWellFormed F C body signature l v.formed;
    durable = commit_prepared-IsDurable F C body signature l v.durable;
  }

  Reach-IsSafe : {l m : Ledger} → IsSafe l → Reach l m → IsSafe m
  Reach-IsSafe v here = v
  Reach-IsSafe v (next r st) = Step-IsSafe st (Reach-IsSafe v r)

  module _ (registry : Registry) (path : Option String) (saved : truthy_text path ≡ true) where
    start-IsSafe : IsSafe (empty registry path)
    start-IsSafe = record {
      audited = IsAudited-empty F C registry path;
      formed = IsWellFormed-empty registry path;
      durable = IsDurable-empty registry path saved;
    }

    -- After any sequence of calls of `append` and `commit_prepared` on a new ledger with a file,
    -- under the conditions of `Step`, the full audit reports no problem.
    pub audit_after_any_run :
        {l : Ledger} → Reach (empty registry path) l → verify_chain F C l ≡ ok (true, [])
    audit_after_any_run r = (Reach-IsSafe start-IsSafe r).audited

    -- After any sequence of calls of `append` and `commit_prepared` on a new ledger with a file,
    -- under the conditions of `Step`, loading the file gives back the whole ledger: its events with
    -- their marks of supersession, its index and its file.
    pub restart_after_any_run :
        {l : Ledger} → Reach (empty registry path) l → load l.registry l.path l.file ≡ ok l
    restart_after_any_run {l} r = load-IsDurable l (Reach-IsSafe start-IsSafe r).durable
