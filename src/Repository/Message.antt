-- ===== src/Repository/Message.antt =====
-- internal/repository/message/repository.go: `Save`, the one method that a service calls.
use todo_chat_app.Outcome.{Action}
use todo_chat_app.Model.{Message}
use todo_chat_app.Gorm.{Table}

module _ {W : Type 0} (messages : Table W Message) where
  unfoldable pub save : Message → Action W Message
  save message = messages.create message
