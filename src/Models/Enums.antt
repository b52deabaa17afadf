-- ===== src/Models/Enums.antt =====
-- app/models/enums.py: the enumerations that the columns hold, with their equality.

pub data UserRole : Type 0 where
  admin charger worker caregiver : UserRole

pub data WorkRecordType : Type 0 where
  on work rest off : WorkRecordType

pub data CaregiverDocumentActionType : Type 0 where
  upload download delete : CaregiverDocumentActionType

pub data LeaveType : Type 0 where
  annual monthly sick other : LeaveType

pub data LeaveStatus : Type 0 where
  pending approved rejected : LeaveStatus

-- `status` of app/models/bulk_email_job.py
pub data JobStatus : Type 0 where
  queued sending success failed : JobStatus

-- `Frequency`, `Weekday` and `JournalFormat` of app/schemas
pub data Frequency : Type 0 where
  daily weekly monthly : Frequency

pub data Weekday : Type 0 where
  sun mon tue wed thu fri sat : Weekday

pub data JournalFormat : Type 0 where
  pdf hwp xlsx : JournalFormat

unfoldable pub UserRole-discrete : Discrete UserRole
UserRole-discrete = hlevel

unfoldable pub WorkRecordType-discrete : Discrete WorkRecordType
WorkRecordType-discrete = hlevel

unfoldable pub LeaveType-discrete : Discrete LeaveType
LeaveType-discrete = hlevel

unfoldable pub LeaveStatus-discrete : Discrete LeaveStatus
LeaveStatus-discrete = hlevel
