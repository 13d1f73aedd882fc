-- ===== src/Info/Default/Reverse3.antt =====
-- lib/InfoModel.cpp: a part of the table that InfoModel::default5103 adds, in its order.
use libfc.Prelude.{ℕ, List, [], ◌∷◌, codes}

abbrev pub reverse_specs_3 : List (List ℕ)
reverse_specs_3 =
    codes "reverseSamplingPacketInterval(29305/305)<unsigned32>[4]"
    ∷ codes "reverseSamplingPacketSpace(29305/306)<unsigned32>[4]"
    ∷ codes "reverseSamplingTimeInterval(29305/307)<unsigned32>[4]"
    ∷ codes "reverseSamplingTimeSpace(29305/308)<unsigned32>[4]"
    ∷ codes "reverseSamplingSize(29305/309)<unsigned32>[4]"
    ∷ codes "reverseSamplingPopulation(29305/310)<unsigned32>[4]"
    ∷ codes "reverseSamplingProbability(29305/311)<float64>[8]"
    ∷ codes "reverseDataLinkFrameSize(29305/312)<unsigned16>[2]"
    ∷ codes "reverseIpHeaderPacketSection(29305/313)<octetArray>[65535]"
    ∷ codes "reverseIpPayloadPacketSection(29305/314)<octetArray>[65535]"
    ∷ codes "reverseDataLinkFrameSection(29305/315)<octetArray>[65535]"
    ∷ codes "reverseMplsLabelStackSection(29305/316)<octetArray>[65535]"
    ∷ codes "reverseMplsPayloadPacketSection(29305/317)<octetArray>[65535]"
    ∷ codes "reverseSelectorIdTotalPktsObserved(29305/318)<unsigned64>[8]"
    ∷ codes "reverseSelectorIdTotalPktsSelected(29305/319)<unsigned64>[8]"
    ∷ codes "reverseAbsoluteError(29305/320)<float64>[8]"
    ∷ codes "reverseRelativeError(29305/321)<float64>[8]"
    ∷ codes "reverseObservationTimeSeconds(29305/322)<dateTimeSeconds>"
    ∷ codes "reverseObservationTimeMilliseconds(29305/323)<dateTimeMilliseconds>"
    ∷ codes "reverseObservationTimeMicroseconds(29305/324)<dateTimeMicroseconds>"
    ∷ codes "reverseObservationTimeNanoseconds(29305/325)<dateTimeNanoseconds>"
    ∷ codes "reverseDigestHashValue(29305/326)<unsigned64>[8]"
    ∷ codes "reverseHashIPPayloadOffset(29305/327)<unsigned64>[8]"
    ∷ codes "reverseHashIPPayloadSize(29305/328)<unsigned64>[8]"
    ∷ codes "reverseHashOutputRangeMin(29305/329)<unsigned64>[8]"
    ∷ codes "reverseHashOutputRangeMax(29305/330)<unsigned64>[8]"
    ∷ codes "reverseHashSelectedRangeMin(29305/331)<unsigned64>[8]"
    ∷ codes "reverseHashSelectedRangeMax(29305/332)<unsigned64>[8]"
    ∷ codes "reverseHashDigestOutput(29305/333)<boolean>[1]"
    ∷ codes "reverseHashInitialiserValue(29305/334)<unsigned64>[8]"
    ∷ codes "reverseSelectorName(29305/335)<string>[65535]"
    ∷ codes "reverseUpperCILimit(29305/336)<float64>[8]"
    ∷ codes "reverseLowerCILimit(29305/337)<float64>[8]"
    ∷ codes "reverseConfidenceLevel(29305/338)<float64>[8]"
    ∷ codes "reverseInformationElementDataType(29305/339)<unsigned8>[1]"
    ∷ codes "reverseInformationElementDescription(29305/340)<string>[65535]"
    ∷ codes "reverseInformationElementName(29305/341)<string>[65535]"
    ∷ codes "reverseInformationElementRangeBegin(29305/342)<unsigned64>[8]"
    ∷ codes "reverseInformationElementRangeEnd(29305/343)<unsigned64>[8]"
    ∷ codes "reverseInformationElementSemantics(29305/344)<unsigned8>[1]"
    ∷ codes "reverseInformationElementUnits(29305/345)<unsigned16>[2]"
    ∷ codes "reversePrivateEnterpriseNumber(29305/346)<unsigned32>[4]"
    ∷ codes "reverseVirtualStationInterfaceId(29305/347)<octetArray>[65535]"
    ∷ codes "reverseVirtualStationInterfaceName(29305/348)<string>[65535]"
    ∷ codes "reverseVirtualStationUUID(29305/349)<octetArray>[65535]"
    ∷ codes "reverseVirtualStationName(29305/350)<string>[65535]"
    ∷ codes "reverseLayer2SegmentId(29305/351)<unsigned64>[8]"
    ∷ codes "reverseLayer2OctetDeltaCount(29305/352)<unsigned64>[8]"
    ∷ codes "reverseLayer2OctetTotalCount(29305/353)<unsigned64>[8]"
    ∷ codes "reverseIngressUnicastPacketTotalCount(29305/354)<unsigned64>[8]"
    ∷ codes "reverseIngressMulticastPacketTotalCount(29305/355)<unsigned64>[8]"
    ∷ codes "reverseIngressBroadcastPacketTotalCount(29305/356)<unsigned64>[8]"
    ∷ codes "reverseEgressUnicastPacketTotalCount(29305/357)<unsigned64>[8]"
    ∷ codes "reverseEgressBroadcastPacketTotalCount(29305/358)<unsigned64>[8]"
    ∷ codes "reverseMonitoringIntervalStartMilliSeconds(29305/359)<dateTimeMilliseconds>[8]"
    ∷ codes "reverseMonitoringIntervalEndMilliSeconds(29305/360)<dateTimeMilliseconds>[8]"
    ∷ codes "reversePortRangeStart(29305/361)<unsigned16>[2]"
    ∷ codes "reversePortRangeEnd(29305/362)<unsigned16>[2]"
    ∷ codes "reversePortRangeStepSize(29305/363)<unsigned16>[2]"
    ∷ codes "reversePortRangeNumPorts(29305/364)<unsigned16>[2]"
    ∷ codes "reverseStaMacAddress(29305/365)<macAddress>[6]"
    ∷ codes "reverseStaIPv4Address(29305/366)<ipv4Address>[4]"
    ∷ codes "reverseWtpMacAddress(29305/367)<macAddress>[6]"
    ∷ codes "reverseIngressInterfaceType(29305/368)<unsigned32>[4]"
    ∷ codes "reverseEgressInterfaceType(29305/369)<unsigned32>[4]"
    ∷ codes "reverseRtpSequenceNumber(29305/370)<unsigned16>[2]"
    ∷ codes "reverseUserName(29305/371)<string>[65535]"
    ∷ codes "reverseApplicationCategoryName(29305/372)<string>[65535]"
    ∷ codes "reverseApplicationSubCategoryName(29305/373)<string>[65535]"
    ∷ codes "reverseApplicationGroupName(29305/374)<string>[65535]"
    ∷ codes "reverseOriginalFlowsPresent(29305/375)<unsigned64>[8]"
    ∷ codes "reverseOriginalFlowsInitiated(29305/376)<unsigned64>[8]"
    ∷ codes "reverseOriginalFlowsCompleted(29305/377)<unsigned64>[8]"
    ∷ codes "reverseDistinctCountOfSourceIPAddress(29305/378)<unsigned64>[8]"
    ∷ codes "reverseDistinctCountOfDestinationIPAddress(29305/379)<unsigned64>[8]"
    ∷ codes "reverseDistinctCountOfSourceIPv4Address(29305/380)<unsigned32>[4]"
    ∷ codes "reverseDistinctCountOfDestinationIPv4Address(29305/381)<unsigned32>[4]"
    ∷ codes "reverseDistinctCountOfSourceIPv6Address(29305/382)<unsigned64>[8]"
    ∷ codes "reverseDistinctCountOfDestinationIPv6Address(29305/383)<unsigned64>[8]"
    ∷ codes "reverseValueDistributionMethod(29305/384)<unsigned8>[1]"
    ∷ codes "reverseRfc3550JitterMilliseconds(29305/385)<unsigned32>[4]"
    ∷ codes "reverseRfc3550JitterMicroseconds(29305/386)<unsigned32>[4]"
    ∷ codes "reverseRfc3550JitterNanoseconds(29305/387)<unsigned32>[4]"
    ∷ codes "reverseDot1qDEI(29305/388)<boolean>[1]"
    ∷ codes "reverseDot1qCustomerDEI(29305/389)<boolean>[1]"
    ∷ codes "reverseFlowSelectorAlgorithm(29305/390)<unsigned16>"
    ∷ codes "reverseFlowSelectedOctetDeltaCount(29305/391)<unsigned64>"
    ∷ codes "reverseFlowSelectedPacketDeltaCount(29305/392)<unsigned64>"
    ∷ codes "reverseFlowSelectedFlowDeltaCount(29305/393)<unsigned64>"
    ∷ codes "reverseSelectorIDTotalFlowsObserved(29305/394)<unsigned64>"
    ∷ codes "reverseSelectorIDTotalFlowsSelected(29305/395)<unsigned64>"
    ∷ codes "reverseSamplingFlowInterval(29305/396)<unsigned64>"
    ∷ codes "reverseSamplingFlowSpacing(29305/397)<unsigned64>"
    ∷ codes "reverseFlowSamplingTimeInterval(29305/398)<unsigned64>"
    ∷ codes "reverseFlowSamplingTimeSpacing(29305/399)<unsigned64>"
    ∷ codes "reverseHashFlowDomain(29305/400)<unsigned16>"
    ∷ codes "reverseTransportOctetDeltaCount(29305/401)<unsigned64>"
    ∷ codes "reverseTransportPacketDeltaCount(29305/402)<unsigned64>"
    ∷ codes "reverseOriginalExporterIPv4Address(29305/403)<ipv4Address>"
    ∷ codes "reverseOriginalExporterIPv6Address(29305/404)<ipv6Address>"
    ∷ codes "reverseOriginalObservationDomainId(29305/405)<unsigned32>"
    ∷ codes "reverseIntermediateProcessId(29305/406)<unsigned32>"
    ∷ codes "reverseIgnoredDataRecordTotalCount(29305/407)<unsigned64>"
    ∷ codes "reverseDataLinkFrameType(29305/408)<unsigned16>"
    ∷ codes "reverseSectionOffset(29305/409)<unsigned16>"
    ∷ codes "reverseSectionExportedOctets(29305/410)<unsigned16>"
    ∷ codes "reverseDot1qServiceInstanceTag(29305/411)<octetArray>"
    ∷ codes "reverseDot1qServiceInstanceId(29305/412)<unsigned32>"
    ∷ codes "reverseDot1qServiceInstancePriority(29305/413)<unsigned8>"
    ∷ codes "reverseDot1qCustomerSourceMacAddress(29305/414)<macAddress>"
    ∷ codes "reverseDot1qCustomerDestinationMacAddress(29305/415)<macAddress>"
    ∷ codes "reverseL2OctetDeltaCount(29305/416)<unsigned64>"
    ∷ codes "reversePostL2OctetDeltaCount(29305/417)<unsigned64>"
    ∷ codes "reversePostMCastL2OctetDeltaCount(29305/418)<unsigned64>"
    ∷ codes "reverseL2OctetTotalCount(29305/419)<unsigned64>"
    ∷ codes "reversePostL2OctetTotalCount(29305/420)<unsigned64>"
    ∷ codes "reversePostMCastL2OctetTotalCount(29305/421)<unsigned64>"
    ∷ codes "reverseMinimumL2TotalLength(29305/422)<unsigned64>"
    ∷ codes "reverseMaximumL2TotalLength(29305/423)<unsigned64>"
    ∷ codes "reverseDroppedL2OctetDeltaCount(29305/424)<unsigned64>"
    ∷ codes "reverseDroppedL2OctetTotalCount(29305/425)<unsigned64>"
    ∷ codes "reverseIgnoredL2OctetTotalCount(29305/426)<unsigned64>"
    ∷ codes "reverseNotSentL2OctetTotalCount(29305/427)<unsigned64>"
    ∷ codes "reverseL2OctetDeltaSumOfSquares(29305/428)<unsigned64>"
    ∷ codes "reverseL2OctetTotalSumOfSquares(29305/429)<unsigned64>"
    ∷ []
