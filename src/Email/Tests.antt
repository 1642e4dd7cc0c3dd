-- ===== src/Email/Tests.antt =====
-- Runs of LogSender.
use mascotapp.Base.{codes}
use mascotapp.Email.{Message}

abbrev link : Message
link = record { purpose = codes "magic_link"; subject = codes "Hi"; body = codes "secret-1" }

abbrev other_link : Message
other_link = record {
  purpose = codes "magic_link";
  subject = codes "Hello";
  body = codes "secret-2";
}
